-- ===== src/Gc/Keys.antt =====
-- The keys of the indexes: volume, node and snapshot, with dots between them.
use zfs_localpv.Prelude.{
  Str, ==→≡, ==_iff, [], ◌∷◌, ◌++◌, ◌≡◌, refl, Bool, true, false, if◌then◌else◌, without, contains,
  arith,
}
use zfs_localpv.Gc.{get_backup_key_by_spec}

has_dot : (s t : Str) → without b'.' (s ++ b'.' ∷ t) ≡ false
has_dot [] t = refl
has_dot (c ∷ s) t = let ih = has_dot s t in ground arith

-- A dot that nothing before it, or nothing after it, contains splits a text in one way.
first_dot :
    (s t s' t' : Str)
    → without b'.' s ≡ true
    → without b'.' s' ≡ true
    → (s ++ b'.' ∷ t) ≡ (s' ++ b'.' ∷ t')
    → (s ≡ s') × (t ≡ t')
first_dot [] t [] t' h h' eq = (refl, cc)
first_dot [] t (c ∷ s') t' h h' eq = absurd (let same : b'.' ≡ c = cc in ground arith)
first_dot (c ∷ s) t [] t' h h' eq = absurd (let same : c ≡ b'.' = cc in ground arith)
first_dot (c ∷ s) t (d ∷ s') t' h h' eq =
    let head : c ≡ d = cc in
    let tail : (s ++ b'.' ∷ t) ≡ (s' ++ b'.' ∷ t') = cc in
    let (one, two) = first_dot s t s' t' (ground arith) (ground arith) tail in (cc, two)

last_dot :
    (s t s' t' : Str)
    → without b'.' t ≡ true
    → without b'.' t' ≡ true
    → (s ++ b'.' ∷ t) ≡ (s' ++ b'.' ∷ t')
    → (s ≡ s') × (t ≡ t')
last_dot [] t [] t' h h' eq = (refl, cc)
last_dot [] t (c ∷ s') t' h h' eq =
    absurd (let tail : t ≡ s' ++ b'.' ∷ t' = cc in let dot = has_dot s' t' in cc)
last_dot (c ∷ s) t [] t' h h' eq =
    absurd (let tail : s ++ b'.' ∷ t ≡ t' = cc in let dot = has_dot s t in cc)
last_dot (c ∷ s) t (d ∷ s') t' h h' eq =
    let head : c ≡ d = cc in
    let tail : (s ++ b'.' ∷ t) ≡ (s' ++ b'.' ∷ t') = cc in
    let (one, two) = last_dot s t s' t' h h' tail in (cc, two)

-- With volume and snapshot names that have no dot, a key has one reading. Node names may have dots.
pub key_parts :
    (volume node snap volume' node' snap' : Str)
    → without b'.' volume ≡ true
    → without b'.' snap ≡ true
    → without b'.' volume' ≡ true
    → without b'.' snap' ≡ true
    → get_backup_key_by_spec volume node snap ≡ get_backup_key_by_spec volume' node' snap'
    → (volume ≡ volume') × (node ≡ node') × (snap ≡ snap')
unfolding get_backup_key_by_spec
key_parts volume node snap volume' node' snap' v s v' s' eq =
    let (one, rest) = first_dot volume _ volume' _ v v' eq in
    let (two, three) = last_dot node snap node' snap' s s' rest in (one, two, three)

pub key_same :
    {volume node snap volume' node' snap' : Str}
    → volume ≡ volume'
    → node ≡ node'
    → snap ≡ snap'
    → get_backup_key_by_spec volume node snap ≡ get_backup_key_by_spec volume' node' snap'
key_same v n s = cc

-- the keys of a backup, which are at most one
pub only_key :
    (absent : Bool) (own key : Str)
    → contains key (if absent then [] else own ∷ []) ≡ true
    → own ≡ key
only_key true own key h = cc
only_key false own key h = ==→≡ own key (ground arith)

pub has_key :
    (absent : Bool) (own key : Str)
    → absent ≡ false
    → own ≡ key
    → contains key (if absent then [] else own ∷ []) ≡ true
has_key true own key h same = cc
has_key false own key h same = let found = (==_iff own key).1 same in ground arith

-- ===== src/Scheduler/Params/Laws.antt =====
-- What the pool parameters of a storage class select.
use zfs_localpv.Prelude.{
  Str, codes, ◌==◌, ◌++◌, ◌∷◌, ==_iff, without, nat_eq, refl, false, some, inl, inr, [], ◌≡◌, ◌≢◌,
  ◌↔◌, ◌⊎◌, none, true, arith, is_empty_iff,
}
use zfs_localpv.Api.{ok, err, plain}
use zfs_localpv.Scheduler.{Pattern}
use zfs_localpv.Scheduler.Maps.{pool_root}
use zfs_localpv.Scheduler.Params.{
  Regexps, QuotesLiterally, parse_pool_params, get_volume_type, reserves_space,
}

-- nothing, or a slash and the path of a dataset in the pool
abbrev pub IsBelow : Str → Type 0
IsBelow rest = (rest ≡ []) ⊎ ((path : Str) × (rest ≡ b'/' ∷ path))

pool_root-append :
    (root rest : Str) → without b'/' root ≡ true → IsBelow rest → pool_root (root ++ rest) ≡ root
unfolding pool_root
pool_root-append [] rest h (inl e) = rw e refl
pool_root-append [] rest h (inr (path, e)) = rw e refl
pool_root-append (c ∷ root) rest h below =
    let ih = pool_root-append root rest (ground arith) below in
    let other : nat_eq c b'/' ≡ false = ground arith in rw (other, ih) refl

-- A poolname alone, a pool without a slash or a dataset in that pool, gives a pattern that matches
-- exactly the pool, whatever characters the name holds, by the documentation of the `regexp` package.
pub parse_pool_params-poolname :
    (re : Regexps) (root rest : Str)
    → QuotesLiterally re
    → without b'/' root ≡ true
    → IsBelow rest
    → (root ++ rest) ≢ []
    → (p : Pattern) × (parse_pool_params re (root ++ rest) [] ≡ ok p)
      × ((pool : Str) → (p pool ≡ true) ↔ (pool ≡ root))
unfolding parse_pool_params
parse_pool_params-poolname re root rest lit plain_root below n =
    let (p, e, exact) = lit.anchored root in
    let same = pool_root-append root rest plain_root below in
    let compiled : re.compile (codes "^" ++ re.quote_meta (pool_root (root ++ rest)) ++ codes "$")
        ≡ some p =
      rw same e in
    (p, ground (arith, compiled, is_empty_iff (root ++ rest)), exact)

-- `parsePoolParams` fails exactly where both parameters are set, where neither is, and where
-- poolpattern is set and does not compile, by the documentation of the `regexp` package.
pub parse_pool_params-err :
    (re : Regexps) (poolname poolpattern : Str)
    → QuotesLiterally re
    → (parse_pool_params re poolname poolpattern ≡ err plain) ↔ (
        ((poolname ≢ []) × (poolpattern ≢ []))
        ⊎ ((poolname ≡ []) × (poolpattern ≡ []))
        ⊎ ((poolpattern ≢ []) × (re.compile poolpattern ≡ none)))
unfolding parse_pool_params
parse_pool_params-err re poolname poolpattern lit =
    let (p, e, _) = lit.anchored (pool_root poolname) in
    ground (arith, e, is_empty_iff poolname, is_empty_iff poolpattern)

-- A volume reserves space exactly where it is not thin: `thinprovision` is "no", or it is a zvol
-- (any filesystem but zfs) that `thinprovision` does not set to "yes".
pub reserves_space_iff :
    (fstype thin : Str)
    → (reserves_space (get_volume_type fstype) thin ≡ true)
      ↔ ((thin ≡ codes "no") ⊎ ((fstype ≢ codes "zfs") × (thin ≢ codes "yes")))
unfolding reserves_space get_volume_type ◌==◌
reserves_space_iff fstype thin =
    ground (arith, ==_iff fstype (codes "zfs"), ==_iff thin (codes "no"), ==_iff thin (codes "yes"))

-- ===== src/Tests/Schedule.antt =====
-- Two nodes with two pools each, and the scheduler's choices among them.
use zfs_localpv.Prelude.{
  Str, codes, ◌==◌, ==_iff, List, [], ◌∷◌, ◌++◌, ◌≡◌, ◌≢◌, ◌↔◌, refl, true, false, arith, Dict,
  none, some, ◌<◌, inl, get_or, lookup, insert, ℕ, ap, ◌∙◌, All, ◌&&◌, any, filter, Option, inr,
  sym,
}
use zfs_localpv.Prelude.Int.{ℤ, pos, ◌<ℤ◌, ◌≤ℤ◌}
use zfs_localpv.Api.{Pool, ZfsNode, ok}
use zfs_localpv.Scheduler.{Pattern, max_free_pool, pool_for_node}
use zfs_localpv.Scheduler.Scan.{FirstBest}
use zfs_localpv.Scheduler.Lightest.{Qualifies, weight, pool_for_node-FirstBest}
use zfs_localpv.Scheduler.Fit.{pool_for_node_iff_roomiest}
use zfs_localpv.Scheduler.Maps.{
  k8s_node_name, suitable_nodes, filter_keep, capacity_weighted_map, space_weighted_map,
}
use zfs_localpv.Scheduler.Suitable.{filter_keep-suitable_nodes}
use zfs_localpv.Scheduler.Used.{used_on, capacity_weighted_map-used_on}
use zfs_localpv.Scheduler.Matching.{has_match, has_room}
use zfs_localpv.Scheduler.Space.{HasRoomiest, space_weighted_map-order}
use zfs_localpv.Scheduler.Params.{Regexps, QuotesLiterally, parse_pool_params}
use zfs_localpv.Scheduler.Params.Laws.{parse_pool_params-poolname}

-- every pool matches but `root`
abbrev no_root : Pattern
no_root s = elim (s == codes "root") [ true ↦ false | false ↦ true ]

abbrev tank : Pool
tank = record { name = codes "tank"; uuid = codes "1"; free = pos 700; used = pos 40 }

abbrev ssd : Pool
ssd = record { name = codes "ssd"; uuid = codes "2"; free = pos 300; used = pos 5 }

abbrev node_a : ZfsNode
node_a = record {
  name = codes "id-a";
  owner_references =
      record { kind = codes "Node"; name = codes "a"; uid = codes "u"; controller = some true }
      ∷ [];
  pools =
      record { name = codes "root"; uuid = codes "0"; free = pos 900; used = pos 1 }
      ∷ ssd
      ∷ tank
      ∷ [];
}

abbrev node_b : ZfsNode
node_b = record { name = codes "b"; owner_references = []; pools = ssd ∷ [] }

abbrev nodes : List ZfsNode
nodes = node_a ∷ node_b ∷ []

abbrev pools : List Pool
pools = node_a.pools

named : All (λ p. p.name ≢ []) pools
named = ground arith

abbrev weights : Dict ℤ
weights = (codes "tank", pos 2) ∷ (codes "ssd", pos 2) ∷ []

max_free_pool-tank : max_free_pool pools no_root ≡ (codes "tank", pos 700)
unfolding max_free_pool ◌==◌
max_free_pool-tank = refl

-- a tie keeps the first pool
pool_for_node-tie : pool_for_node pools no_root (pos 10) weights ≡ codes "ssd"
unfolding pool_for_node ◌==◌ get_or
pool_for_node-tie = refl

pool_for_node-FirstBest_example :
    (w : ℤ) × FirstBest
      (Qualifies no_root (pos 10) weights)
      (weight no_root (pos 10) weights)
      ◌<ℤ◌
      ◌≤ℤ◌
      (pos 0)
      pools
      (pool_for_node pools no_root (pos 10) weights, w)
pool_for_node-FirstBest_example = pool_for_node-FirstBest no_root (pos 10) weights pools named

pool_for_node_iff_roomiest_example :
    (((max_free_pool pools no_root).0 ≢ []) × (pos 500 <ℤ (max_free_pool pools no_root).1))
    ↔ (pool_for_node pools no_root (pos 500) weights ≢ [])
pool_for_node_iff_roomiest_example =
    pool_for_node_iff_roomiest no_root (pos 500) weights pools named (omega arith)

filter_keep-run :
    filter_keep (codes "b" ∷ codes "a" ∷ codes "c" ∷ []) (suitable_nodes nodes no_root (pos 500)).0
    ≡ codes "a" ∷ []
unfolding filter_keep suitable_nodes max_free_pool ◌==◌ get_or insert
filter_keep-run = refl

filter_keep-suitable_nodes_example :
    let (suitable, matched) = suitable_nodes nodes no_root (pos 500) in
    (filter_keep (codes "b" ∷ codes "a" ∷ []) suitable
      ≡ filter
          (λ n. any (λ z. k8s_node_name z == n && has_room no_root (pos 500) z) nodes)
          (codes "b" ∷ codes "a" ∷ []))
    × (matched ≡ any (has_match no_root) nodes)
filter_keep-suitable_nodes_example =
    filter_keep-suitable_nodes nodes no_root (pos 500) (codes "b" ∷ codes "a" ∷ [])
      (named, (ground arith, tt))

capacity_weighted_map-used_on_example :
    get_or (codes "a") (capacity_weighted_map nodes no_root) (pos 0)
    ≡ pos (used_on no_root (codes "a") nodes)
unfolding k8s_node_name ◌==◌
capacity_weighted_map-used_on_example =
    capacity_weighted_map-used_on no_root (codes "a") nodes (ground arith) (omega arith)

roomiest_a : HasRoomiest no_root node_a 700
unfolding ◌==◌
roomiest_a = (
  named,
  inr (inr (inl (refl, refl))),
  ((λ h. cc), ((λ h. omega arith), ((λ h. omega arith), tt))),
)

roomiest_b : HasRoomiest no_root node_b 300
unfolding ◌==◌
roomiest_b = (ground arith, inl (refl, refl), ((λ h. omega arith), tt))

space_weighted_map-order_example :
    let m = space_weighted_map nodes no_root in
    (wa : ℤ) × (wb : ℤ) × (lookup (k8s_node_name node_a) m ≡ some wa)
    × (lookup (k8s_node_name node_b) m ≡ some wb)
    × ((wa <ℤ wb) ↔ (300 < 700))
unfolding k8s_node_name ◌==◌
space_weighted_map-order_example =
    space_weighted_map-order no_root nodes node_a node_b 700 300 (ground arith) (inl refl)
      (inr (inl refl)) roomiest_a roomiest_b (omega arith) (omega arith)

-- expressions `^text$` alone
abbrev drop_last : Str → Str
drop_last [] = []
drop_last (a ∷ []) = []
drop_last (a ∷ b ∷ s) = a ∷ drop_last (b ∷ s)

drop_last-concat : (s : Str) (c : ℕ) → drop_last (s ++ c ∷ []) ≡ s
drop_last-concat [] c = refl
drop_last-concat (a ∷ []) c = refl
drop_last-concat (a ∷ b ∷ s) c = ap (λ t. a ∷ t) (drop_last-concat (b ∷ s) c)

abbrev compile_literal : Str → Option Pattern
compile_literal [] = none
compile_literal (c ∷ s) = some (λ t. t == drop_last s)

abbrev literals : Regexps
literals = record { compile = compile_literal; quote_meta = λ s. s }

literals-QuotesLiterally : QuotesLiterally literals
literals-QuotesLiterally = record {
  anchored = λ s. (
    λ t. t == drop_last (s ++ codes "$"),
    refl,
    λ t. (
      λ h. (==_iff t _).0 h ∙ drop_last-concat s _,
      λ e. (==_iff t _).1 (e ∙ sym (drop_last-concat s _)),
    ),
  );
}

parse_pool_params-poolname_example :
    (p : Pattern) × (parse_pool_params literals (codes "tank" ++ codes "/k8s") [] ≡ ok p)
    × ((pool : Str) → (p pool ≡ true) ↔ (pool ≡ codes "tank"))
parse_pool_params-poolname_example =
    parse_pool_params-poolname literals (codes "tank") (codes "/k8s") literals-QuotesLiterally refl
      (inr (codes "k8s", refl)) (ground arith)

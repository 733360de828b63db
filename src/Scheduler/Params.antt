-- ===== src/Scheduler/Params.antt =====
-- The storage class parameters that select pools: `parsePoolParams`, `sourcePoolAllowed` and
-- `reservesSpace` of pkg/driver/schd_helper.go, and `GetVolumeType` of pkg/zfs/zfs_util.go. The
-- `regexp` package is the parameter `Regexps`.
pub mod Laws
use zfs_localpv.Prelude.{
  Str, codes, ◌==◌, ==_iff, [], ◌++◌, ◌≡◌, ◌↔◌, refl, Bool, true, false, ◌&&◌, ◌||◌, not, is_empty,
  Option, none, some, if◌then◌else◌, arith, ◌≢◌, ◌⊎◌, inl, inr,
}
use zfs_localpv.Api.{Result, ok, err, plain}
use zfs_localpv.Scheduler.{Pattern}
use zfs_localpv.Scheduler.Maps.{pool_root}

-- Go's `regexp`: `compile s` is what `MatchString` of the compiled expression answers, and `none`
-- where `Compile` returns an error and `MustCompile` panics.
pub record Regexps : Type 0 where
  pub compile : Str → Option Pattern
  pub quote_meta : Str → Str

-- The documentation of `QuoteMeta`, `^` and `$`: an anchored quoted text matches that text alone.
pub record QuotesLiterally (re : Regexps) : Type 0 where
  pub anchored :
      (s : Str)
      → (p : Pattern) × (re.compile (codes "^" ++ re.quote_meta s ++ codes "$") ≡ some p)
        × ((t : Str) → (p t ≡ true) ↔ (t ≡ s))

abbrev or_plain : Option Pattern → Result Pattern
or_plain none = err plain
or_plain (some p) = ok p

-- `parsePoolParams`
unfoldable pub parse_pool_params : Regexps → Str → Str → Result Pattern
unfolding pool_root
parse_pool_params re poolname poolpattern =
    if not (is_empty poolname) && not (is_empty poolpattern)
    then err plain
    else if not (is_empty poolpattern)
    then or_plain (re.compile poolpattern)
    else if not (is_empty poolname)
    then or_plain (re.compile (codes "^" ++ re.quote_meta (pool_root poolname) ++ codes "$"))
    else err plain

-- `sourcePoolAllowed`
unfoldable pub source_pool_allowed : Str → Str → Pattern → Bool
unfolding pool_root
source_pool_allowed src_pool poolname pattern =
    if not (is_empty poolname) then src_pool == poolname else pattern (pool_root src_pool)

-- `GetVolumeType`
unfoldable pub get_volume_type : Str → Str
get_volume_type fstype = if fstype == codes "zfs" then codes "DATASET" else codes "ZVOL"

-- `reservesSpace`
unfoldable pub reserves_space : Str → Str → Bool
reserves_space vtype thin_provision =
    if thin_provision == codes "no"
    then true
    else not (vtype == codes "DATASET") && not (thin_provision == codes "yes")

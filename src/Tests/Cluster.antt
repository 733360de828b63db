-- ===== src/Tests/Cluster.antt =====
-- An API server for the examples: a list of volumes and a list of snapshots. A second of sleep makes
-- every pending object ready.
use zfs_localpv.Prelude.{
  Str, codes, ◌==◌, ==→≡, ==_iff, List, [], ◌∷◌, ◌≡◌, refl, ap, ◌∙◌, Bool, true, false, Option,
  none, some, if◌then◌else◌, map, filter, get_or, Any, inl, inr, subst, arith,
}
use zfs_localpv.Api.{ZfsVolume, ZfsSnapshot, ok, err, object_not_found}
use zfs_localpv.Zfs.Host.{Ran}
use zfs_localpv.Controller.Server.{
  Cluster, ClusterLaws, Got, Wrote, volume_key, removed_volume, removed_snapshot, written_volume,
}
use zfs_localpv.Tests.Named.{find, set, find-name, find-set, find-map}

pub record World : Type 0 where
  pub volumes : List ZfsVolume
  pub snapshots : List ZfsSnapshot

abbrev readied : Str → Str
readied state = if state == codes "Pending" then codes "Ready" else state

abbrev ready_volume : ZfsVolume → ZfsVolume
ready_volume vol = record vol { state = readied vol.state }

abbrev ready_snapshot : ZfsSnapshot → ZfsSnapshot
ready_snapshot snap = record snap { state = readied snap.state }

abbrev read_found : {A : Type 0} → Option A → World → Ran World A
read_found none s = (err object_not_found, s)
read_found (some x) s = (ok x, s)

abbrev of_volume : Str → List ZfsSnapshot → List ZfsSnapshot
of_volume volume snaps = filter (λ snap. get_or volume_key snap.labels [] == volume) snaps

abbrev volume_named : Str → World → Option ZfsVolume
volume_named name s = find (λ vol. vol.name) name s.volumes

abbrev snapshot_named : Str → World → Option ZfsSnapshot
snapshot_named name s = find (λ snap. snap.name) name s.snapshots

abbrev with_volume : Str → Option ZfsVolume → World → World
with_volume name after s = record s { volumes = set (λ vol. vol.name) name after s.volumes }

abbrev with_snapshot : Str → Option ZfsSnapshot → World → World
with_snapshot name after s = record s { snapshots = set (λ snap. snap.name) name after s.snapshots }

-- no node has a label, and no pool has been reported
abbrev pub server : Cluster World
server = record {
  read_volume = λ name s. read_found (volume_named name s) s;
  write_volume = λ vol s. (ok tt, with_volume vol.name (written_volume vol) s);
  add_volume = λ vol s. (ok tt, with_volume vol.name (some vol) s);
  remove_volume = λ name s. (ok tt, with_volume name (removed_volume (volume_named name s)) s);
  all_volumes = λ s. (ok s.volumes, s);
  read_snapshot = λ name s. read_found (snapshot_named name s) s;
  add_snapshot = λ snap s. (ok tt, with_snapshot snap.name (some snap) s);
  remove_snapshot =
      λ name s. (ok tt, with_snapshot name (removed_snapshot (snapshot_named name s)) s);
  snapshots_of = λ volume s. (ok (of_volume volume s.snapshots), s);
  zfs_node = λ name s. (err object_not_found, s);
  zfs_nodes = λ s. (ok [], s);
  node_labels = λ name s. (ok [], s);
  sleep = λ s. record {
    volumes = map ready_volume s.volumes;
    snapshots = map ready_snapshot s.snapshots;
  };
}

abbrev pub server_volumes : World → Str → Option ZfsVolume
server_volumes s name = volume_named name s

abbrev pub server_snapshots : World → Str → Option ZfsSnapshot
server_snapshots s name = snapshot_named name s

of_volume-all :
    (volume name : Str) (snaps : List ZfsSnapshot) (snap : ZfsSnapshot)
    → find (λ item. item.name) name snaps ≡ some snap
    → get_or volume_key snap.labels [] ≡ volume
    → Any (λ item. item.name ≡ name) (of_volume volume snaps)
unfolding find
of_volume-all volume name [] snap h label = cc
of_volume-all volume name (item ∷ snaps) snap h label =
    go (λ there. of_volume-all volume name snaps snap there label) (item.name == name) refl
      (get_or volume_key item.labels [] == volume) refl h
  where
    go :
        (find (λ i. i.name) name snaps ≡ some snap
          → Any (λ i. i.name ≡ name) (of_volume volume snaps))
        → (found : Bool) → (item.name == name) ≡ found
        → (mine : Bool) → (get_or volume_key item.labels [] == volume) ≡ mine
        → (if found then some item else find (λ i. i.name) name snaps) ≡ some snap
        → Any
            (λ i. i.name ≡ name)
            (if mine then item ∷ of_volume volume snaps else of_volume volume snaps)
    go ih true eq true own h = inl (==→≡ item.name name eq)
    go ih true eq false own h =
        let one : item ≡ snap = cc in
        absurd (
          let same = (==_iff _ volume).1 (ap (λ i. get_or volume_key i.labels []) one ∙ label) in
          cc)
    go ih false eq true own h = inr (ih h)
    go ih false eq false own h = ih h

read_found-keeps : {A : Type 0} (o : Option A) (s : World) → (read_found o s).1 ≡ s
read_found-keeps none s = refl
read_found-keeps (some x) s = refl

removed_volume-name :
    (name : Str) (o : Option ZfsVolume) (vol : ZfsVolume)
    → ((v : ZfsVolume) → o ≡ some v → v.name ≡ name)
    → removed_volume o ≡ some vol
    → vol.name ≡ name
removed_volume-name name none vol named h = cc
removed_volume-name name (some v) vol named h = let same = named v refl in ground arith

removed_snapshot-name :
    (name : Str) (o : Option ZfsSnapshot) (snap : ZfsSnapshot)
    → ((x : ZfsSnapshot) → o ≡ some x → x.name ≡ name)
    → removed_snapshot o ≡ some snap
    → snap.name ≡ name
removed_snapshot-name name none snap named h = cc
removed_snapshot-name name (some x) snap named h = let same = named x refl in ground arith

written_volume-name :
    (vol found : ZfsVolume) → written_volume vol ≡ some found → found.name ≡ vol.name
written_volume-name vol found h = ground arith

read_found-Got :
    {A : Type 0} (stored : World → Str → Option A) (name : Str) (s : World)
    → Got stored name s (read_found (stored s name) s).0
read_found-Got {A} stored name s = go (stored s name) refl
  where
    go : (o : Option A) → stored s name ≡ o → Got stored name s (read_found o s).0
    go none eq = λ _. eq
    go (some x) eq = eq

volume_set :
    (name : Str) (after : Option ZfsVolume) (s : World)
    → ((vol : ZfsVolume) → after ≡ some vol → vol.name ≡ name)
    → Wrote server_volumes name after s (ok tt, with_volume name after s)
volume_set name after s named =
    let (others, own) = find-set (λ vol. vol.name) name after s.volumes named in (others, inl own)

snapshot_set :
    (name : Str) (after : Option ZfsSnapshot) (s : World)
    → ((snap : ZfsSnapshot) → after ≡ some snap → snap.name ≡ name)
    → Wrote server_snapshots name after s (ok tt, with_snapshot name after s)
snapshot_set name after s named =
    let (others, own) = find-set (λ snap. snap.name) name after s.snapshots named in
    (others, inl own)

pub server-ClusterLaws : ClusterLaws server server_volumes server_snapshots
server-ClusterLaws = record {
  volume_name = λ s name vol h. find-name (λ v. v.name) name s.volumes vol h;
  snapshot_name = λ s name snap h. find-name (λ x. x.name) name s.snapshots snap h;
  read_volume_keeps = λ name s.
      let same = read_found-keeps (volume_named name s) s in
      (
        λ other. ap (λ w. server_volumes w other) same,
        λ other. ap (λ w. server_snapshots w other) same,
      );
  read_volume_got = λ name s. read_found-Got server_volumes name s;
  read_snapshot_keeps = λ name s.
      let same = read_found-keeps (snapshot_named name s) s in
      (
        λ other. ap (λ w. server_volumes w other) same,
        λ other. ap (λ w. server_snapshots w other) same,
      );
  read_snapshot_got = λ name s. read_found-Got server_snapshots name s;
  snapshots_of_keeps = λ volume s. (λ _. refl, λ _. refl);
  snapshots_of_all = λ volume s snaps name snap eq there label.
      let same : of_volume volume s.snapshots ≡ snaps = cc in
      subst (λ items. Any (λ item. item.name ≡ name) items) same
        (of_volume-all volume name s.snapshots snap there label);
  write_volume_wrote =
      λ vol s. volume_set vol.name (written_volume vol) s (written_volume-name vol);
  add_volume_wrote = λ vol s. volume_set vol.name (some vol) s (λ v h. cc);
  remove_volume_wrote = λ name s. volume_set name (removed_volume (volume_named name s)) s λ vol.
      removed_volume-name name (volume_named name s) vol
        (λ v there. find-name (λ x. x.name) name s.volumes v there);
  add_snapshot_wrote = λ snap s. snapshot_set snap.name (some snap) s (λ x h. cc);
  add_snapshot_keeps = λ snap s _. refl;
  remove_snapshot_wrote = λ name s.
      snapshot_set name (removed_snapshot (snapshot_named name s)) s λ snap.
        removed_snapshot-name name (snapshot_named name s) snap
          (λ v there. find-name (λ x. x.name) name s.snapshots v there);
  remove_snapshot_keeps = λ name s _. refl;
  sleep_snapshot = λ s name snap there.
      let (before, present, same) =
        find-map (λ x. x.name) ready_snapshot name s.snapshots snap (λ _. refl) there in
      (before, present, ap (λ x. get_or volume_key x.labels []) same);
  sleep_volume = λ s name vol there.
      let (before, present, same) =
        find-map (λ v. v.name) ready_volume name s.volumes vol (λ _. refl) there in
      (before, present, ap (λ v. v.spec) same);
}

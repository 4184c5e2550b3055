-- ===== src/Store/Bundles/Collect.antt =====
-- What the store's garbage collection takes away.
use ma_sinafadavi_iran.Prelude.{
  ℕ, ◌≡◌, refl, Bool, not, ◌&&◌, Option, none, some, List, [], ◌∷◌, arith, if◌then◌else◌, All, ◌==◌,
  find, Option-cases, Bool-cases, subst, inl, inr,
}
use ma_sinafadavi_iran.Bpv7.BundleId.{BundleId, id_eq}
use ma_sinafadavi_iran.Store.Descriptor.{BundleDescriptor, Result, ok, err, no_such_bundle, expired}
use ma_sinafadavi_iran.Store.Descriptor.Invariant.{IsConsistent, is_nonempty-length}
use ma_sinafadavi_iran.Store.Bundles.{
  BundleStore, get_bundle_descriptor, live_descriptor, collect_one, collect, garbage_collect,
}

abbrev pub is_garbage : ℕ → BundleDescriptor → Bool
is_garbage now d = expired now d && not d.retain

-- What a client sees of a descriptor after the collection.
abbrev pub uncollected : ℕ → BundleId → Result BundleDescriptor → Result BundleDescriptor
uncollected now id (err e) = err e
uncollected now id (ok d) = if is_garbage now d then err (no_such_bundle id) else ok d

collected : ℕ → Option BundleDescriptor → Option BundleDescriptor
unfolding collect_one
collected now none = none
collected now (some d) = some (collect_one now d).0

find-collect :
    (now : ℕ) (id : BundleId) (m : List (BundleId × BundleDescriptor))
    → find id (collect now m).0 ≡ collected now (find id m)
unfolding collect collected
find-collect now id [] = refl
find-collect now id ((k, d) ∷ m) = ground (arith, find-collect now id m)

abbrev pub ConsistentEntry : BundleId × BundleDescriptor → Type 0
ConsistentEntry (id, d) = IsConsistent d

pub find-IsConsistent :
    (id : BundleId) (m : List (BundleId × BundleDescriptor)) (d : BundleDescriptor)
    → All ConsistentEntry m
    → find id m ≡ some d
    → IsConsistent d
find-IsConsistent id [] d all e = cc
find-IsConsistent id ((k, x) ∷ m) d (v, vs) e = elim (Bool-cases (k == id)) [
  | inl same ↦ let found : x ≡ d = ground arith in subst IsConsistent found v
  | inr other ↦ let later : find id m ≡ some d = ground arith in find-IsConsistent id m d vs later
]

collect_one-uncollected :
    (now : ℕ) (id : BundleId) (d : BundleDescriptor)
    → IsConsistent d
    → live_descriptor id (some (collect_one now d).0)
      ≡ uncollected now id (live_descriptor id (some d))
unfolding live_descriptor collect_one
collect_one-uncollected now id d v =
    ground (arith, v.retained, v.unconstrained, is_nonempty-length d.retention_constraints)

-- If the flags of every descriptor in the store agree with its constraints, then for a client that asks
-- for a bundle by its id, a garbage collection takes away the bundles that have expired and have no
-- retention constraint, and no others; those that it leaves are as before.
pub garbage_collect-uncollected :
    (now : ℕ) (bst : BundleStore) (id : BundleId)
    → All ConsistentEntry bst.bundles
    → get_bundle_descriptor (garbage_collect now bst).0 id
      ≡ uncollected now id (get_bundle_descriptor bst id)
unfolding get_bundle_descriptor garbage_collect collected
garbage_collect-uncollected now bst id all = elim (Option-cases (find id bst.bundles)) [
  | inl missing ↦ ground (arith, find-collect now id bst.bundles)
  | inr (d, found) ↦
      rw (find-collect now id bst.bundles, found)
        (collect_one-uncollected now id d (find-IsConsistent id bst.bundles d all found))
]

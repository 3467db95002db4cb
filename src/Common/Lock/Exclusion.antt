-- ===== src/Common/Lock/Exclusion.antt =====
-- Operations that run at once and take the locks of pkg/common/lock.go: who holds what.
use zenlayer_cloud_csi_drive.Prelude.{
  ℕ, ◌≡◌, refl, ap, Bool, true, false, List, [], ◌∷◌, map, ◌&&◌, ◌||◌, arith, Text, str_eq,
  str_eq_iff, ◌==◌, if◌then◌else◌, ◌∙◌, sym, not,
}
use zenlayer_cloud_csi_drive.Common.Lock.{
  ResourceLocks, new_resource_locks, has, delete, try_acquire, release,
}

-- A running operation, by a number of its own, and the resource that it has locked.
abbrev pub Holder : Type 0
Holder = ℕ × Text

abbrev pub keys : List Holder → List Text
keys = map λ h. h.1

unfoldable pub holds : ℕ → Text → List Holder → Bool
holds o k [] = false
holds o k ((p, j) ∷ hs) = (p == o && str_eq j k) || holds o k hs

-- The holders without those of one resource.
unfoldable pub without : Text → List Holder → List Holder
without k [] = []
without k ((p, j) ∷ hs) = let rest = without k hs in if str_eq j k then rest else (p, j) ∷ rest

pub record Running : Type 0 where
  pub locks : ResourceLocks
  pub holders : List Holder

abbrev pub idle : Running
idle = record { locks = new_resource_locks; holders = [] }

-- What running operations do to the locks, in any order: one gets a lock, one is told that the
-- lock is taken, one that holds a lock gives it back.
pub data Step : Running → Running → Type 0 where
  acquired :
      (s : Running) (o : ℕ) (k : Text) (l : ResourceLocks)
      → try_acquire k s.locks ≡ (true, l)
      → Step s (record { locks = l; holders = (o, k) ∷ s.holders })
  pending :
      (s : Running) (o : ℕ) (k : Text) (l : ResourceLocks)
      → try_acquire k s.locks ≡ (false, l)
      → Step s (record s { locks = l })
  released :
      (s : Running) (o : ℕ) (k : Text)
      → holds o k s.holders ≡ true
      → Step s (record { locks = release k s.locks; holders = without k s.holders })

pub data Reach (s : Running) : Running → Type 0 where
  here : Reach s s
  next : {t u : Running} → Reach s t → Step t u → Reach s u

-- No resource has two holders.
abbrev pub Distinct : List Holder → Type 0
Distinct [] = Unit {0}
Distinct ((o, k) ∷ hs) = (has k (keys hs) ≡ false) × Distinct hs

pub record Inv (s : Running) : Type 0 where
  pub agree : s.locks.locks ≡ keys s.holders
  pub distinct : Distinct s.holders

keys-without : (k : Text) (hs : List Holder) → keys (without k hs) ≡ delete k (keys hs)
unfolding without delete
keys-without k [] = refl
keys-without k ((p, j) ∷ hs) = ground (arith, keys-without k hs)

has-delete_le : (j k : Text) (l : List Text) → has j l ≡ false → has j (delete k l) ≡ false
unfolding has delete
has-delete_le j k [] h = refl
has-delete_le j k (i ∷ l) h = ground (arith, has-delete_le j k l)

without-Distinct : (k : Text) (hs : List Holder) → Distinct hs → Distinct (without k hs)
unfolding without
without-Distinct k [] d = tt
without-Distinct k ((p, j) ∷ hs) d =
    ground (arith, without-Distinct k hs, keys-without k hs, has-delete_le j k (keys hs))

Step-Inv : {s t : Running} → Step s t → Inv s → Inv t
unfolding try_acquire release
Step-Inv (acquired s o k l e) v = ground arith
Step-Inv (pending s o k l e) v = ground arith
Step-Inv (released s o k e) v = record {
  agree = ap (delete k) v.agree ∙ sym (keys-without k s.holders);
  distinct = without-Distinct k s.holders v.distinct;
}

Reach-Inv : {s t : Running} → Inv s → Reach s t → Inv t
Reach-Inv v here = v
Reach-Inv v (next r st) = Step-Inv st (Reach-Inv v r)

holds-has : (o : ℕ) (k : Text) (hs : List Holder) → holds o k hs ≡ true → has k (keys hs) ≡ true
unfolding holds has
holds-has o k [] h = cc
holds-has o k ((p, j) ∷ hs) h = ground (arith, holds-has o k hs)

one_holder :
    (o p : ℕ) (k : Text) (hs : List Holder)
    → Distinct hs
    → holds o k hs ≡ true
    → holds p k hs ≡ true
    → o ≡ p
unfolding holds
one_holder o p k [] d h h' = cc
one_holder o p k ((q, j) ∷ hs) d h h' =
    ground (arith, one_holder o p k hs, holds-has o k hs, holds-has p k hs, str_eq_iff j k)

-- In every state that running operations reach from no locks: if two operations hold one
-- resource, they are the same operation, and the resource is in the set of locks.
pub mutual_exclusion :
    (s : Running) (o p : ℕ) (k : Text)
    → Reach idle s
    → holds o k s.holders ≡ true
    → holds p k s.holders ≡ true
    → (o ≡ p) × (has k s.locks.locks ≡ true)
mutual_exclusion s o p k r h h' =
    let v = Reach-Inv (record { agree = refl; distinct = tt }) r in
    (one_holder o p k s.holders v.distinct h h', rw (v.agree) (holds-has o k s.holders h))

has-delete_self : (k : Text) (l : List Text) → has k (delete k l) ≡ false
unfolding has delete
has-delete_self k [] = refl
has-delete_self k (j ∷ l) = ground (arith, has-delete_self k l)

-- In every state that running operations reach from no locks: TryAcquire of a resource succeeds
-- exactly if nobody holds it, and it succeeds after a Release of the resource.
pub released_can_be_acquired :
    (s : Running) (k : Text)
    → Reach idle s
    → ((try_acquire k s.locks).0 ≡ not (has k (keys s.holders)))
      × ((try_acquire k (release k s.locks)).0 ≡ true)
unfolding try_acquire release
released_can_be_acquired s k r =
    let v = Reach-Inv (record { agree = refl; distinct = tt }) r in
    (ground (arith, v.agree), ground (arith, has-delete_self k s.locks.locks))

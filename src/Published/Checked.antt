-- ===== src/Published/Checked.antt =====
-- The checks that the handlers on files share, one by one.
use safe_file_hub.Base.{
  ℕ, zero, suc, ◌≡◌, ◌≤◌, ◌⊎◌, refl, Bool, true, false, ◌&&◌, Option, none, some, List, [], ◌∷◌,
  ◌==◌, Bytes, bytes_eq, bytes_eq_iff, All, arith, Bool-cases, inl, inr,
}
use safe_file_hub.Base.Int.{ℤ, pos, negsuc}
use safe_file_hub.PathPolicy.{NamePolicy, LogicalPath, parse_decoded_path, slash}
use safe_file_hub.PathPolicy as PathPolicy
use safe_file_hub.Published.Data.{FileRow, Hub, not_found, conflict, failed, Answer, ok, err}
use safe_file_hub.Published.Rows.{
  is_active, first_at, file_by_root_and_path, is_directory, directory_by_root_and_path, is_root,
  storage_root_by_id,
}
use safe_file_hub.Published.Handlers.{
  parent_of, Check, refuse, go, then_check, check_user, check_allowed, check_found, check_free,
  check_test, check_root_id, check_canonical, check_parent,
}

-- A refusal is answered with an error; what passes has a property.
abbrev pub Ends : {A : Type 0} → (A → Type 0) → Check A → Type 0
Ends Good (refuse status) = 400 ≤ status
Ends Good (go a) = Good a

abbrev pub Refuses : {A : Type 0} → Check A → Type 0
Refuses c = Ends (λ _. Unit) c

pub then_check-Ends :
    {A B : Type 0} (Good : B → Type 0) (c : Check A) (rest : A → Check B)
    → Refuses c
    → ((a : A) → c ≡ go a → Ends Good (rest a))
    → Ends Good (then_check c rest)
then_check-Ends Good (refuse status) rest r k = r
then_check-Ends Good (go a) rest r k = k a refl

pub user-Refuses : (user : Option ℕ) → Refuses (check_user user)
unfolding check_user
user-Refuses none = omega arith
user-Refuses (some zero) = omega arith
user-Refuses (some (suc n)) = tt

pub allowed-Refuses : (a : Answer Bool) → Refuses (check_allowed a)
unfolding check_allowed
allowed-Refuses (err e) = omega arith
allowed-Refuses (ok true) = tt
allowed-Refuses (ok false) = omega arith

pub found-Refuses : {A : Type 0} → (a : Answer A) → Refuses (check_found a)
unfolding check_found
found-Refuses (ok a) = tt
found-Refuses (err not_found) = omega arith
found-Refuses (err conflict) = omega arith
found-Refuses (err failed) = omega arith

pub free-Refuses : {A : Type 0} → (a : Answer A) → Refuses (check_free a)
unfolding check_free
free-Refuses (ok a) = omega arith
free-Refuses (err not_found) = tt
free-Refuses (err conflict) = omega arith
free-Refuses (err failed) = omega arith

pub test-Refuses : (b : Bool) (status : ℕ) → 400 ≤ status → Refuses (check_test b status)
test-Refuses true status n = n
test-Refuses false status n = tt

pub root_id-Refuses : (root : ℤ) → Refuses (check_root_id root)
unfolding check_root_id
root_id-Refuses (negsuc n) = omega arith
root_id-Refuses (pos zero) = omega arith
root_id-Refuses (pos (suc n)) = tt

pub canonical-Refuses : (r : PathPolicy.Result LogicalPath) → Refuses (check_canonical r)
unfolding check_canonical
canonical-Refuses (PathPolicy.err e) = omega arith
canonical-Refuses (PathPolicy.ok p) = elim (Bool-cases (bytes_eq p.canonical (slash ∷ []))) [
  | inl e ↦ rw e (omega arith)
  | inr e ↦ rw e tt
]

pub parent-Refuses :
    (fails : Bool) (root : ℕ) (path : Bytes) (h : Hub) → Refuses (check_parent fails root path h)
unfolding check_parent
parent-Refuses fails root path h = elim (Bool-cases (bytes_eq (parent_of path) (slash ∷ []))) [
  | inl e ↦ rw e tt
  | inr e ↦ rw e (found-Refuses (directory_by_root_and_path fails root (parent_of path) h))
]

-- What each check has found where it passes.
pub allowed_go : (a : Answer Bool) → check_allowed a ≡ go tt → a ≡ ok true
unfolding check_allowed
allowed_go (err b) e = absurd (ground (arith, e))
allowed_go (ok true) e = refl
allowed_go (ok false) e = absurd (ground (arith, e))

pub root_id-go : (root : ℤ) (n : ℕ) → check_root_id root ≡ go n → root ≡ pos n
unfolding check_root_id
root_id-go (negsuc n) m e = absurd (ground (arith, e))
root_id-go (pos zero) m e = absurd (ground (arith, e))
root_id-go (pos (suc n)) m e = ground (arith, e)

pub canonical-go :
    (r : PathPolicy.Result LogicalPath) (path : Bytes)
    → check_canonical r ≡ go path
    → (p : LogicalPath) × (r ≡ PathPolicy.ok p)
      × (p.canonical ≡ path)
      × (bytes_eq path (slash ∷ []) ≡ false)
unfolding check_canonical
canonical-go (PathPolicy.err e) path h = absurd (ground (arith, h))
canonical-go (PathPolicy.ok p) path h = (p, refl, ground (arith, h), ground (arith, h))

pub user-go : (user : Option ℕ) (n : ℕ) → check_user user ≡ go n → user ≡ some n
unfolding check_user
user-go none n e = absurd (ground (arith, e))
user-go (some zero) n e = absurd (ground (arith, e))
user-go (some (suc m)) n e = ground (arith, e)

pub test-go : (b : Bool) (status : ℕ) → check_test b status ≡ go tt → b ≡ false
test-go true status e = absurd (ground (arith, e))
test-go false status e = refl

pub root-go :
    (fails : Bool) (root : ℕ) (h : Hub)
    → check_found (storage_root_by_id fails root h) ≡ go tt
    → is_root h.roots root ≡ true
unfolding storage_root_by_id check_found
root-go fails root h e = ground (arith, e)

-- The parent of the path is the root directory, or a directory of the root.
abbrev pub ParentStands : ℕ → Bytes → Hub → Type 0
ParentStands root path h =
    (parent_of path ≡ slash ∷ []) ⊎ (is_directory h.directories root (parent_of path) ≡ true)

pub parent-go :
    (fails : Bool) (root : ℕ) (path : Bytes) (h : Hub)
    → check_parent fails root path h ≡ go tt
    → ParentStands root path h
unfolding check_parent check_found directory_by_root_and_path
parent-go fails root path h e = elim (Bool-cases (bytes_eq (parent_of path) (slash ∷ []))) [
  | inl top ↦ inl ((bytes_eq_iff (parent_of path) (slash ∷ [])).0 top)
  | inr below ↦ inr (ground (arith, e, below))
]

-- No active file of the root has this path.
abbrev pub NoFileAt : ℕ → Bytes → List FileRow → Type 0
NoFileAt root path fs =
    All
      (λ f.
        ((f.root_id == root && bytes_eq f.logical_path path) && is_active f.delete_state) ≡ false)
      fs

first_at-NoFileAt :
    (root : ℕ) (path : Bytes) (fs : List FileRow)
    → first_at root path fs ≡ err not_found
    → NoFileAt root path fs
unfolding first_at
first_at-NoFileAt root path [] e = tt
first_at-NoFileAt root path (f ∷ fs) e =
    (ground (arith, e), first_at-NoFileAt root path fs (ground (arith, e)))

free-go : (o : Answer FileRow) → check_free o ≡ go tt → o ≡ err not_found
unfolding check_free
free-go (ok r) q = absurd (ground (arith, q))
free-go (err not_found) q = refl
free-go (err conflict) q = absurd (ground (arith, q))
free-go (err failed) q = absurd (ground (arith, q))

pub destination-go :
    (fails : Bool) (root : ℕ) (path : Bytes) (h : Hub)
    → check_free (file_by_root_and_path fails root path h) ≡ go tt
    → NoFileAt root path h.files
unfolding file_by_root_and_path
destination-go fails root path h e =
    let none_there = free-go (file_by_root_and_path fails root path h) e in
    first_at-NoFileAt root path h.files (ground (arith, none_there))

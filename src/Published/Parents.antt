-- ===== src/Published/Parents.antt =====
-- Every directory has its parent, as long as no other process comes between the checks of a creation
-- and its insert.
use safe_file_hub.Base.{
  ℕ, suc, ◌≡◌, ◌≢◌, ◌⊎◌, refl, sym, ap, ◌∙◌, subst, inl, inr, Bool, true, false, Option, List, [],
  ◌∷◌, ◌++◌, ◌==◌, Bytes, bytes_eq, bytes_eq_iff, if◌then◌else◌, arith, Bool-cases, All, split,
  join, append_assoc,
}
use safe_file_hub.Base.Split.{join-split}
use safe_file_hub.PathPolicy.{NamePolicy, slash}
use safe_file_hub.Published.Data.{Answer, ok, err}
use safe_file_hub.Published.Handlers.{
  Check, refuse, go, then_check, Target, check_allowed, check_found, check_free, check_parent,
  parent_of, all_but_last,
}
use safe_file_hub.Published.Rows.{
  is_directory, directory_by_root_and_path, storage_root_by_id, file_by_root_and_path,
}
use safe_file_hub.Published.Directories.{
  DirectoryRow, Tree, pairs, Like, below_pattern, directories_like, directory_at, drop_rows,
  is_blocked, drop_directory, dropped_one, delete_directory, delete_directory_checked, DeleteFaults,
  check_delete_directory, after_delete, insert_directory, may_create, create_directory,
  create_directory_checked, check_directory_request, check_directory_target, DirectoryFaults,
  DirectoryRequest, after_insert, hub_of, new_directory,
}

-- What LIKE is documented to do with a pattern that a percent sign ends: a text matches it that begins
-- with the rest of the pattern, whatever wildcards stand in there, since each of them matches itself.
abbrev pub LikesOwn : Like → Type 0
LikesOwn like = (p s : Bytes) → like (p ++ slash ∷ s) (below_pattern p) ≡ true

-- The last word of a text stands behind the join of the others.
join-last :
    (v u : Bytes) (ws : List Bytes)
    → (s : Bytes) × (join slash (v ∷ u ∷ ws) ≡ join slash (all_but_last (v ∷ u ∷ ws)) ++ slash ∷ s)
unfolding join all_but_last
join-last v u [] = (u, refl)
join-last v u (x ∷ ws) =
    let (s, ih) = join-last u x ws in
    let front = join slash (all_but_last (u ∷ x ∷ ws)) in
    (s, ap (λ r. v ++ slash ∷ r) ih ∙ sym (append_assoc v (slash ∷ front) (slash ∷ s)))

-- The parent that the words of a path give.
parent_of_words : List Bytes → Bytes
parent_of_words ws =
    let parent = join slash (all_but_last ws) in if bytes_eq parent [] then slash ∷ [] else parent

words-below :
    (ws : List Bytes)
    → parent_of_words ws ≢ slash ∷ []
    → (s : Bytes) × (join slash ws ≡ parent_of_words ws ++ slash ∷ s)
unfolding parent_of_words all_but_last join bytes_eq
words-below [] n = absurd (n refl)
words-below (v ∷ []) n = absurd (n refl)
words-below (v ∷ u ∷ ws) n =
    let (s, e) = join-last v u ws in (s, at_end (join slash (all_but_last (v ∷ u ∷ ws))) s n e)
  where
    at_end :
        (parent s : Bytes)
        → (if bytes_eq parent [] then slash ∷ [] else parent) ≢ slash ∷ []
        → join slash (v ∷ u ∷ ws) ≡ parent ++ slash ∷ s
        → join slash (v ∷ u ∷ ws) ≡ (if bytes_eq parent [] then slash ∷ [] else parent) ++ slash ∷ s
    at_end [] s n e = absurd (n refl)
    at_end (c ∷ parent) s n e = e

-- A path that is not at the top lies below its parent.
pub path-below :
    (path : Bytes)
    → parent_of path ≢ slash ∷ []
    → (s : Bytes) × (path ≡ parent_of path ++ slash ∷ s)
unfolding parent_of parent_of_words
path-below path n =
    let (s, e) = words-below (split slash path) n in (s, sym (join-split slash path) ∙ e)

-- The parent of a directory stands in the table, or is the root.
abbrev pub HasParent : List DirectoryRow → DirectoryRow → Type 0
HasParent rows d =
    (parent_of d.logical_path ≡ slash ∷ [])
    ⊎ (directory_at d.root_id (parent_of d.logical_path) rows ≡ true)

abbrev pub Parented : Tree → Type 0
Parented t = All (HasParent t.rows) t.rows

directory_at-append :
    (root : ℕ) (path : Bytes) (ds : List DirectoryRow) (d : DirectoryRow)
    → directory_at root path ds ≡ true
    → directory_at root path (ds ++ d ∷ []) ≡ true
unfolding directory_at
directory_at-append root path [] d h = absurd (ground (arith, h))
directory_at-append root path (e ∷ ds) d h =
    let ih = directory_at-append root path ds d in ground (arith, h, ih)

HasParent-append :
    (rows ds : List DirectoryRow) (d : DirectoryRow)
    → All (HasParent rows) ds
    → HasParent (rows ++ d ∷ []) d
    → All (HasParent (rows ++ d ∷ [])) (ds ++ d ∷ [])
HasParent-append rows [] d a h = (h, tt)
HasParent-append rows (e ∷ ds) d (here, a) h = (older here, HasParent-append rows ds d a h)
  where
    older : HasParent rows e → HasParent (rows ++ d ∷ []) e
    older (inl k) = inl k
    older (inr k) = inr (directory_at-append e.root_id (parent_of e.logical_path) rows d k)

is_directory-pairs :
    (root : ℕ) (path : Bytes) (ds : List DirectoryRow)
    → is_directory (pairs ds) root path ≡ directory_at root path ds
unfolding is_directory pairs directory_at
is_directory-pairs root path [] = refl
is_directory-pairs root path (d ∷ ds) =
    let ih = is_directory-pairs root path ds in ground (arith, ih)

module _ (like : Like) (own : LikesOwn like) where
  -- The trigger of a deletion finds this row below its parent.
  abbrev Found : List DirectoryRow → DirectoryRow → Type 0
  Found rows d =
      parent_of d.logical_path ≢ slash ∷ []
      → directories_like like d.root_id (parent_of d.logical_path) rows ≡ true

  Found-more :
      (e : DirectoryRow) (rows ds : List DirectoryRow)
      → All (Found rows) ds
      → All (Found (e ∷ rows)) ds
  unfolding directories_like
  Found-more e rows [] a = tt
  Found-more e rows (d ∷ ds) (here, a) =
      (λ n. let h = here n in ground (arith, h), Found-more e rows ds a)

  all-Found : (rows : List DirectoryRow) → All (Found rows) rows
  unfolding directories_like
  all-Found [] = tt
  all-Found (d ∷ ds) = (here, Found-more d ds ds (all-Found ds))
    where
      here : Found (d ∷ ds) d
      here n =
          let (s, e) = path-below d.logical_path n in
          let liked = own (parent_of d.logical_path) s in
          let matches : like d.logical_path (below_pattern (parent_of d.logical_path)) ≡ true =
            subst (λ q. like q (below_pattern (parent_of d.logical_path)) ≡ true) (sym e) liked in
          ground (arith, matches)

  -- A directory is still there after a deletion, or the trigger has found nothing below it.
  directory_at-drop_rows :
      (id root : ℕ) (path : Bytes) (t : Tree) (ds : List DirectoryRow)
      → is_blocked like id t ds ≡ false
      → directory_at root path ds ≡ true
      → (directory_at root path (drop_rows id ds).0 ≡ true)
        ⊎ (directories_like like root path t.rows ≡ false)
  unfolding is_blocked directory_at drop_rows
  directory_at-drop_rows id root path t [] b h = absurd (ground (arith, h))
  directory_at-drop_rows id root path t (d ∷ ds) b h =
      let ih = directory_at-drop_rows id root path t ds in
      ground (arith, b, h, ih, bytes_eq_iff d.logical_path path)

  drop_rows-HasParent :
      (id : ℕ) (t : Tree) (ds : List DirectoryRow)
      → is_blocked like id t t.rows ≡ false
      → All (HasParent t.rows) ds
      → All (Found t.rows) ds
      → All (HasParent (drop_rows id t.rows).0) (drop_rows id ds).0
  unfolding drop_rows
  drop_rows-HasParent id t [] b a f = tt
  drop_rows-HasParent id t (d ∷ ds) b (here, a) (found, f) =
      kept (d.id == id) (keep here) (drop_rows-HasParent id t ds b a f)
    where
      keep : HasParent t.rows d → HasParent (drop_rows id t.rows).0 d
      keep (inl k) = inl k
      keep (inr k) =
          elim (directory_at-drop_rows id d.root_id (parent_of d.logical_path) t t.rows b k) [
            | inl m ↦ inr m
            | inr m ↦ elim (Bool-cases (bytes_eq (parent_of d.logical_path) (slash ∷ []))) [
              | inl top ↦ inl ((bytes_eq_iff (parent_of d.logical_path) (slash ∷ [])).0 top)
              | inr below ↦
                  let there = found (λ e.
                    let same = bytes_eq_iff (parent_of d.logical_path) (slash ∷ []) in
                    ground (arith, below, same, e)) in
                  absurd (ground (arith, there, m))
            ]
          ]

      kept :
          (c : Bool)
          → HasParent (drop_rows id t.rows).0 d
          → All (HasParent (drop_rows id t.rows).0) (drop_rows id ds).0
          → All
              (HasParent (drop_rows id t.rows).0)
              (if◌then◌else◌ {A = List DirectoryRow × ℕ} c
                ((drop_rows id ds).0, suc (drop_rows id ds).1)
                (d ∷ (drop_rows id ds).0, (drop_rows id ds).1)).0
      kept true h r = r
      kept false h r = (h, r)

  drop_directory-Parented :
      (fails : Bool) (id : ℕ) (t : Tree) → Parented t → Parented (drop_directory like fails id t).1
  unfolding drop_directory dropped_one
  drop_directory-Parented fails id t p = elim (Bool-cases fails) [
    | inl e ↦ rw e p
    | inr e ↦ rw e (elim (Bool-cases (is_blocked like id t t.rows)) [
      | inl b ↦ rw b p
      | inr b ↦ rw b (drop_rows-HasParent id t t.rows b p (all-Found t.rows))
    ])
  ]

  -- With no other process, a deletion keeps the parents, whatever it answers.
  pub delete_directory-Parented :
      (f : DeleteFaults) (allowed : Answer Bool) (user : Option ℕ) (id : ℕ) (t : Tree)
      → Parented t
      → Parented (delete_directory like f (λ v. v) allowed user id t).1
  unfolding delete_directory
  delete_directory-Parented f allowed user id t p =
      checked (check_delete_directory f allowed user id t)
    where
      after : (r : Answer Unit × Tree) → Parented r.1 → Parented (after_delete r).1
      after (ok _, v) q = q
      after (err e, v) q = q

      checked :
          (c : Check DirectoryRow) → Parented (delete_directory_checked like f (λ v. v) id t c).1
      checked (refuse status) = p
      checked (go d) =
          after (drop_directory like f.delete id t) (drop_directory-Parented f.delete id t p)

-- What holds of a refusal, and of the rest behind a check that passes, holds of both together.
pub then_check-ind :
    {A B : Type 0} (Q : Check B → Type 0)
    → ((status : ℕ) → Q (refuse status))
    → (c : Check A) (rest : A → Check B) → ((a : A) → c ≡ go a → Q (rest a))
    → Q (then_check c rest)
then_check-ind Q stop (refuse status) rest k = stop status
then_check-ind Q stop (go a) rest k = k a refl

-- The check of the parent has found it.
check_parent-HasParent :
    (fails : Bool) (id : ℕ) (g : Target) (t : Tree)
    → check_parent fails g.root g.path (hub_of t) ≡ go tt
    → HasParent t.rows (new_directory id g)
unfolding check_parent new_directory hub_of check_found directory_by_root_and_path
check_parent-HasParent fails id g t e =
    elim (Bool-cases (bytes_eq (parent_of g.path) (slash ∷ []))) [
      | inl top ↦ inl ((bytes_eq_iff (parent_of g.path) (slash ∷ [])).0 top)
      | inr below ↦
          let same = is_directory-pairs g.root (parent_of g.path) t.rows in
          inr (ground (arith, e, below, same))
    ]

insert_directory-Parented :
    (like : Like) (fails : Bool) (g : Target) (t : Tree)
    → HasParent t.rows (new_directory t.next_id g)
    → Parented t
    → Parented (after_insert (insert_directory like fails g t)).1
unfolding insert_directory after_insert
insert_directory-Parented like fails g t new p = elim (Bool-cases fails) [
  | inl e ↦ rw e p
  | inr e ↦ rw e (elim (Bool-cases (may_create like g t)) [
    | inr m ↦ rw m p
    | inl m ↦ rw m (HasParent-append t.rows t.rows (new_directory t.next_id g) p (later new))
  ])
]
  where
    later :
        HasParent t.rows (new_directory t.next_id g)
        → HasParent (t.rows ++ new_directory t.next_id g ∷ []) (new_directory t.next_id g)
    later (inl k) = inl k
    later (inr k) =
        inr (directory_at-append g.root (parent_of g.path) t.rows (new_directory t.next_id g) k)

-- With no other process, a creation keeps the parents, whatever it answers.
pub create_directory-Parented :
    (nfc : Bytes → Bytes) (policy : NamePolicy) (like : Like) (f : DirectoryFaults)
    (allowed : Answer Bool) (request : Option DirectoryRequest) (user : Option ℕ) (t : Tree)
    → Parented t
    → Parented (create_directory nfc policy like f (λ v. v) allowed request user t).1
unfolding create_directory check_directory_target
create_directory-Parented nfc policy like f allowed request user t p =
    then_check-ind Kept (λ _. p) (check_directory_request nfc policy request user) _
      (λ g _.
        then_check-ind Kept (λ _. p) (check_allowed allowed) _
          (λ _ _.
            then_check-ind Kept (λ _. p) (check_found (storage_root_by_id f.root g.root (hub_of t)))
              _
              (λ _ _.
                then_check-ind Kept (λ _. p) (check_parent f.parent g.root g.path (hub_of t)) _
                  (λ _ found.
                    then_check-ind Kept (λ _. p)
                      (check_free (file_by_root_and_path f.destination g.root g.path (hub_of t))) _
                      (λ _ _.
                        insert_directory-Parented like f.insert g t
                          (check_parent-HasParent f.parent t.next_id g t found) p)))))
  where
    Kept : Check Target → Type 0
    Kept c = Parented (create_directory_checked like f (λ v. v) t c).1

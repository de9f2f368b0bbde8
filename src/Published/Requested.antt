-- ===== src/Published/Requested.antt =====
-- The checks of `createFile` together.
use safe_file_hub.Base.{
  ℕ, ◌≡◌, ◌≤◌, subst, Bool, true, false, not, ◌&&◌, Option, some, [], ◌∷◌, Bytes, bytes_eq, length,
  ltb, arith,
}
use safe_file_hub.Base.Int.{pos}
use safe_file_hub.Base.Utf8.{valid_string}
use safe_file_hub.PathPolicy.{NamePolicy, LogicalPath, parse_decoded_path, slash}
use safe_file_hub.PathPolicy as PathPolicy
use safe_file_hub.Published.Data.{Hub, Authorizer, ok}
use safe_file_hub.Published.Rows.{file_by_root_and_path, is_root, storage_root_by_id}
use safe_file_hub.Published.Handlers.{
  FileCreateRequest, check_user, check_allowed, check_found, check_free, check_test, check_root_id,
  check_canonical, CreateFaults, Target, check_parent, check_target, check_request, check_create,
}
use safe_file_hub.Published.Checked.{
  Ends, then_check-Ends, user-Refuses, allowed-Refuses, found-Refuses, free-Refuses, test-Refuses,
  root_id-Refuses, canonical-Refuses, parent-Refuses, allowed_go, root_id-go, canonical-go, user-go,
  test-go, root-go, ParentStands, parent-go, NoFileAt, destination-go,
}

-- What the request says, and who sends it.
pub record Requested (nfc : Bytes → Bytes) (policy : NamePolicy) (r : FileCreateRequest)
    (user : Option ℕ) (t : Target) : Type 0 where
  pub sender : user ≡ some t.user
  pub root : r.root_id ≡ pos t.root
  pub path :
      (p : LogicalPath) × (parse_decoded_path nfc r.path policy ≡ PathPolicy.ok p)
      × (p.canonical ≡ t.path)
      × (bytes_eq t.path (slash ∷ []) ≡ false)
  pub text : valid_string r.content ≡ true

-- What must hold of the hub and of the authorizer where a file is to be created.
pub record Permitted (ask : Authorizer) (content : Bytes) (h : Hub) (t : Target) : Type 0 where
  pub allowed : ask t.user t.root t.path "write" ≡ ok true
  pub root : is_root h.roots t.root ≡ true
  pub parent : ParentStands t.root t.path h
  pub free : NoFileAt t.root t.path h.files
  pub small : length content ≤ 16777216

check_target-Ends :
    (f : CreateFaults) (ask : Authorizer) (content : Bytes) (h : Hub) (t : Target)
    (Good : Target → Type 0)
    → (Permitted ask content h t → Good t)
    → Ends Good (check_target f ask content h t)
unfolding check_target
check_target-Ends f ask content h t Good k =
    then_check-Ends Good (check_allowed (ask t.user t.root t.path "write")) _
      (allowed-Refuses (ask t.user t.root t.path "write"))
      (λ _ a.
        then_check-Ends Good (check_found (storage_root_by_id f.root t.root h)) _
          (found-Refuses (storage_root_by_id f.root t.root h))
          (λ _ b.
            then_check-Ends Good (check_parent f.parent t.root t.path h) _
              (parent-Refuses f.parent t.root t.path h)
              (λ _ c.
                then_check-Ends Good
                  (check_free (file_by_root_and_path f.destination t.root t.path h)) _
                  (free-Refuses (file_by_root_and_path f.destination t.root t.path h))
                  (λ _ d.
                    then_check-Ends Good (check_test (ltb 16777216 (length content)) 413) _
                      (test-Refuses (ltb 16777216 (length content)) 413 (omega arith))
                      (λ _ e. k (record {
                        allowed = allowed_go (ask t.user t.root t.path "write") a;
                        root = root-go f.root t.root h b;
                        parent = parent-go f.parent t.root t.path h c;
                        free = destination-go f.destination t.root t.path h d;
                        small = ground (arith, test-go (ltb 16777216 (length content)) 413 e);
                      }))))))

check_request-Ends :
    (nfc : Bytes → Bytes) (policy : NamePolicy) (with_content : Bool) (r : FileCreateRequest)
    (user : Option ℕ) (Good : Target → Type 0)
    → ((t : Target) → Requested nfc policy r user t → Good t)
    → Ends Good (check_request nfc policy with_content r user)
unfolding check_request
check_request-Ends nfc policy with_content r user Good k =
    then_check-Ends Good (check_root_id r.root_id) _ (root_id-Refuses r.root_id) (λ root a.
      then_check-Ends Good (check_test (not with_content && not (bytes_eq r.content [])) 400) _
        (test-Refuses _ 400 (omega arith))
        (λ _ _.
          then_check-Ends Good (check_test (not (valid_string r.content)) 400) _
            (test-Refuses _ 400 (omega arith))
            (λ _ b.
              then_check-Ends Good (check_canonical (parse_decoded_path nfc r.path policy)) _
                (canonical-Refuses (parse_decoded_path nfc r.path policy))
                (λ path c. then_check-Ends Good (check_user user) _ (user-Refuses user) (λ uid d.
                  k (record { user = uid; root = root; path = path })
                    (record {
                      sender = user-go user uid d;
                      root = root_id-go r.root_id root a;
                      path = canonical-go (parse_decoded_path nfc r.path policy) path c;
                      text = ground (arith, test-go (not (valid_string r.content)) 400 b);
                    }))))))

-- Of the checks of a creation together.
pub check_create-Ends :
    (nfc : Bytes → Bytes) (policy : NamePolicy) (with_content : Bool) (f : CreateFaults)
    (ask : Authorizer) (r : FileCreateRequest) (user : Option ℕ) (h : Hub)
    → Ends
        (λ t. Requested nfc policy r user t × Permitted ask r.content h t)
        (check_create nfc policy with_content f ask (some r) user h)
unfolding check_create
check_create-Ends nfc policy with_content f ask r user h =
    let Whole : Target → Type 0 =
      λ t. Requested nfc policy r user t × Permitted ask r.content h t in
    then_check-Ends Whole (check_request nfc policy with_content r user)
      (check_target f ask r.content h)
      (check_request-Ends nfc policy with_content r user (λ _. Unit) (λ t q. tt))
      (λ t e. check_target-Ends f ask r.content h t Whole (λ p. (
        subst (Ends (Requested nfc policy r user)) e (
            check_request-Ends nfc policy with_content r user (Requested nfc policy r user)
              (λ t' q. q)),
        p,
      )))

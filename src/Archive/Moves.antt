-- ===== src/Archive/Moves.antt =====
-- The critical sections in any order: what clients, workers and the owner of the manager do.
use safe_file_hub.Base.{
  ℕ, zero, suc, ◌≡◌, String, Bool, true, false, not, ◌&&◌, Option, none, some, List, [], ◌∷◌, ◌==◌,
  str_eq, arith,
}
use safe_file_hub.Archive.Jobs.{
  Job, Build, Manager, is_complete, register, cancel, send, give_up, take, Written, finish, cleanup,
  close_start, close_end,
}

pub data Move : Type 0 where
  registers : String → (user expires : ℕ) → Move
  sends : String → Move
  gives_up : String → Move
  cancels : String → Move
  takes : Option String → Move
  -- the build at this place among those that are going on ends
  finishes : ℕ → Written → Move
  cleans : (now : ℕ) → Move
  starts_closing : Move
  ends_closing : Move

unfoldable pub pick : ℕ → List Build → Option (Build × List Build)
pick n [] = none
pick zero (b ∷ bs) = some (b, bs)
pick (suc n) (b ∷ bs) = elim (pick n bs) [ none ↦ none | some (c, cs) ↦ some (c, b ∷ cs) ]

unfoldable pub finish_picked : Option (Build × List Build) → Written → Manager → Manager
finish_picked none w m = m
finish_picked (some (b, bs)) w m = finish b bs w m

abbrev pub perform : Move → Manager → Manager
perform (registers id user expires) m = register id user expires m
perform (sends id) m = send id m
perform (gives_up id) m = give_up id m
perform (cancels id) m = cancel id m
perform (takes name) m = take name m
perform (finishes n w) m = finish_picked (pick n m.building) w m
perform (cleans now) m = cleanup now m
perform starts_closing m = close_start m
perform ends_closing m = close_end m

abbrev pub perform_all : List Move → Manager → Manager
perform_all [] m = m
perform_all (a ∷ as_) m = perform_all as_ (perform a m)

-- New ids are drawn at random: no move registers this one again.
abbrev pub Leaves : String → Move → Type 0
Leaves id (registers new user expires) = str_eq new id ≡ false
Leaves id (sends _) = Unit
Leaves id (gives_up _) = Unit
Leaves id (cancels _) = Unit
Leaves id (takes _) = Unit
Leaves id (finishes _ _) = Unit
Leaves id (cleans _) = Unit
Leaves id starts_closing = Unit
Leaves id ends_closing = Unit

-- How the job under an id may change: it may go, and otherwise keeps its owner, stays cancelled if it
-- was, and then does not become complete.
unfoldable pub evolves : Option Job → Option Job → Bool
unfolding is_complete
evolves none none = true
evolves none (some k) = false
evolves (some j) none = true
evolves (some j) (some k) =
    (k.user_id == j.user_id)
    && (not (j.context && not k.context)
        && not ((j.context && not (is_complete j.status)) && is_complete k.status))

pub evolves_refl : (o : Option Job) → evolves o o ≡ true
unfolding evolves is_complete
evolves_refl o = ground arith

pub evolves_trans :
    (o p q : Option Job) → evolves o p ≡ true → evolves p q ≡ true → evolves o q ≡ true
unfolding evolves
evolves_trans o p q h k = ground (arith, h, k)

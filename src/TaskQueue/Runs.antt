-- ===== src/TaskQueue/Runs.antt =====
-- `SerializedTaskQueue` at concrete inputs. The world counts the tasks that the executor may still
-- take, and a task is its number.
use asrcpp_gigam.Base.{length, ℕ, zero, suc, ◌≤◌, ◌≡◌, refl, Bool, true, false, List, [], ◌∷◌}
use asrcpp_gigam.TaskQueue.{TaskQueue, push_or_start, maybe_start_next, finish_current, stop}
use asrcpp_gigam.TaskQueue.Order.{
  Call, Traced, step, run, start, InOrder, accepted-InOrder, push, finish, next, stops, started,
  dropped,
}
use asrcpp_gigam.TaskQueue.Service.{rounds-drain}

abbrev room : ℕ → ℕ → Bool × ℕ
room s zero = (false, 0)
room s (suc n) = (true, n)

abbrev always : ℕ → ℕ → Bool × ℕ
always s n = (true, n)

abbrev calls : List (Call ℕ)
calls = push 1 ∷ push 2 ∷ push 3 ∷ push 4 ∷ finish ∷ next ∷ stops true ∷ []

abbrev busy : TaskQueue ℕ
busy = record { max_pending = 2; pending = 7 ∷ []; in_flight = true; stopped = false }

abbrev two_wait : Traced ℕ ℕ
two_wait = record {
  queue = record busy { pending = 7 ∷ 8 ∷ [] };
  world = 0;
  accepted = 7 ∷ 8 ∷ [];
  left = [];
}

calls-left :
    (run room (start room 2 5) calls).left ≡ (1, started) ∷ (2, started) ∷ (3, dropped) ∷ []
unfolding run step push_or_start maybe_start_next finish_current stop
calls-left = refl

accepted-InOrder_example :
    InOrder room (run room (start room 2 5) calls)
    × (length (run room (start room 2 5) calls).queue.pending ≤ 2)
accepted-InOrder_example = accepted-InOrder room 2 5 calls

rounds-drain_example :
    ((run always two_wait (finish ∷ next ∷ finish ∷ next ∷ [])).queue.pending ≡ [])
    × ((run always two_wait (finish ∷ next ∷ finish ∷ next ∷ [])).left
        ≡ (7, started) ∷ (8, started) ∷ [])
rounds-drain_example = rounds-drain always two_wait (7 ∷ 8 ∷ []) (λ s w. refl) refl refl

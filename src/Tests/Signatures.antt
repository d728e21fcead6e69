-- ===== src/Tests/Signatures.antt =====
-- The tests on types, and the calls of the timer: include/timer.
use feedback_ingest.Base.{◌≡◌, refl, some, Bool, true, false, [], ◌∷◌}
use feedback_ingest.Types.{
  Unqualified, duration, time_point, string, class_with, plain, awaitable, void, CppType,
  is_duration, is_awaitable, is_operation_state,
}
use feedback_ingest.Timer.Overloads.{is_viable, every_with_id, is_viable_unique}

abbrev seconds : CppType
seconds = record { is_const = true; is_volatile = false; unqualified = duration 64 1 }

abbrev value : Unqualified → CppType
value t = record { is_const = false; is_volatile = false; unqualified = t }

abbrev is_timepoint : Unqualified → Bool
is_timepoint time_point = true
is_timepoint _ = false

abbrev is_string : Unqualified → Bool
is_string string = true
is_string _ = false

viable :
    is_viable is_timepoint is_string every_with_id (seconds ∷ value (plain 1) ∷ value string ∷ [])
    ≡ true
unfolding is_viable is_duration
viable = refl

is_viable_unique_example : every_with_id ≡ every_with_id
is_viable_unique_example =
    is_viable_unique is_timepoint is_string (λ rep period. refl)
      (seconds ∷ value (plain 1) ∷ value string ∷ []) every_with_id every_with_id viable viable

-- A container is taken for an awaitable, and a class that can be copied for an operation state.
container_is_awaitable : is_awaitable (class_with 1 (plain 2)) ≡ true
unfolding is_awaitable
container_is_awaitable = refl

copyable_is_operation_state :
    is_operation_state (record {
      copy_constructible = true;
      move_constructible = false;
      start = some (awaitable void);
    })
    ≡ true
unfolding is_operation_state
copyable_is_operation_state = refl

-- The assertions of include/coro.hpp.
void_is_awaitable : is_awaitable (awaitable void) ≡ true
unfolding is_awaitable
void_is_awaitable = refl

int_is_awaitable : is_awaitable (awaitable (plain 3)) ≡ true
unfolding is_awaitable
int_is_awaitable = refl

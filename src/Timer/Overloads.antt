-- ===== src/Timer/Overloads.antt =====
-- Which of the four `operator()` of `execute_every_t` (include/timer/asio_timer.hpp) a call takes.
use feedback_ingest.Base.{ℕ, ◌≡◌, refl, Bool, true, false, ◌&&◌, List, [], ◌∷◌}
use feedback_ingest.Types.{Unqualified, duration, CppType, is_duration}
use feedback_ingest.Types.Accepted.{is_duration_lem}

-- From the present time or from a given one, with or without a `dedup_id`.
pub data Overload : Type 0 where
  every every_with_id every_from every_from_with_id : Overload

-- The conversions to `timepoint_t` and to `std::string` that an argument may take.
module _ (is_timepoint is_string : Unqualified → Bool) where
  -- The parameters of each take the arguments; `auto &callback` takes any.
  unfoldable pub is_viable : Overload → List CppType → Bool
  unfolding is_duration
  is_viable every (length ∷ callback ∷ []) = is_duration length
  is_viable every_with_id (length ∷ callback ∷ dedup_id ∷ []) =
      is_duration length && is_string dedup_id.unqualified
  is_viable every_from (start_time ∷ length ∷ callback ∷ []) =
      is_timepoint start_time.unqualified && is_duration length
  is_viable every_from_with_id (start_time ∷ length ∷ callback ∷ dedup_id ∷ []) =
      is_timepoint start_time.unqualified && (is_duration length && is_string dedup_id.unqualified)
  is_viable _ _ = false

  module _ (explicit : (rep period : ℕ) → is_timepoint (duration rep period) ≡ false) where
    no_timepoint : (t : CppType) → is_duration t ≡ true → is_timepoint t.unqualified ≡ false
    no_timepoint t h = let (rep, period, e) = (is_duration_lem t).0 h in rw e (explicit rep period)

    and-left : (x y : Bool) → x && y ≡ true → x ≡ true
    and-left true y h = refl
    and-left false y h = h

    clash :
        (a b c : CppType)
        → is_duration a && is_string c.unqualified ≡ true
        → is_timepoint a.unqualified && is_duration b ≡ true
        → ⊥
    clash a b c h h' =
        let length = and-left (is_duration a) _ h in
        let start = and-left (is_timepoint a.unqualified) _ h' in
        let never = no_timepoint a length in cc

    -- No call of the timer is ambiguous, as long as a duration is not converted to a time point: for
    -- any arguments at most one `operator()` is viable.
    pub is_viable_unique :
        (args : List CppType) (o o' : Overload)
        → is_viable o args ≡ true
        → is_viable o' args ≡ true
        → o ≡ o'
    unfolding is_viable
    is_viable_unique (a ∷ b ∷ c ∷ []) every_with_id every_from h h' = absurd (clash a b c h h')
    is_viable_unique (a ∷ b ∷ c ∷ []) every_from every_with_id h h' = absurd (clash a b c h' h)
    is_viable_unique args every every h h' = refl
    is_viable_unique args every_with_id every_with_id h h' = refl
    is_viable_unique args every_from every_from h h' = refl
    is_viable_unique args every_from_with_id every_from_with_id h h' = refl
    is_viable_unique args o o' h h' = absurd (cc)

-- ===== src/Discourse/Urls.antt =====
-- The URLs of include/data_source/discourse/algorithms.hpp.
use feedback_ingest.Base.{
  ◌≡◌, ◌≢◌, refl, ap, sym, ◌∙◌, List, [], ◌∷◌, ◌++◌, Bytes, codes, All, nat_eq,
}
use mathlib.Core.List.{append-nil, tail-eq_of_cons-eq}
use feedback_ingest.Base.Int.{ℤ}
use feedback_ingest.Base.Decimal.{to_string}
use feedback_ingest.Base.Decimal.Injective.{to_string-injective}
use feedback_ingest.Stream.{is_digit, continue_with}
use feedback_ingest.Stream.Ints.{IsInt}
use feedback_ingest.Stream.Printed.{printed-injective, cancel_prefix}
use feedback_ingest.Stream.Shown.{to_string-IsWord}
use feedback_ingest.Discourse.Algorithms.{join_ids, make_url_for_post_ids}

join_ids-ne-nil : (j : ℤ) (js : List ℤ) → [] ≢ join_ids (j ∷ js)
unfolding join_ids
join_ids-ne-nil j [] e = (to_string-IsWord j).0 (sym e)
join_ids-ne-nil j (k ∷ ks) e = longer (to_string j) _ (to_string-IsWord j).0 e
  where
    longer : (w r : Bytes) → w ≢ [] → [] ≢ w ++ r
    longer [] r ne _ = ne refl
    longer (c ∷ w) r ne e = cc

one_or_more :
    (i j k : ℤ) (ks : List ℤ) → IsInt i → IsInt j → join_ids (i ∷ []) ≢ join_ids (j ∷ k ∷ ks)
unfolding join_ids continue_with
one_or_more i j k ks hi hj e =
    let (_, rest) =
      printed-injective i j [] (b',' ∷ join_ids (k ∷ ks)) hi hj tt (unfold is_digit in refl)
        (append-nil (to_string i) ∙ e) in
    cc

join_ids-injective :
    (is js : List ℤ) → All IsInt is → All IsInt js → join_ids is ≡ join_ids js → is ≡ js
unfolding join_ids continue_with
join_ids-injective [] [] _ _ e = refl
join_ids-injective [] (j ∷ js) _ _ e = absurd (join_ids-ne-nil j js e)
join_ids-injective (i ∷ is) [] _ _ e = absurd (join_ids-ne-nil i is (sym e))
join_ids-injective (i ∷ []) (j ∷ []) _ _ e = ap (λ (k : ℤ). k ∷ []) (to_string-injective i j e)
join_ids-injective (i ∷ []) (j ∷ k ∷ ks) (hi, _) (hj, _) e = absurd (one_or_more i j k ks hi hj e)
join_ids-injective (i ∷ k ∷ ks) (j ∷ []) (hi, _) (hj, _) e =
    absurd (one_or_more j i k ks hj hi (sym e))
join_ids-injective (i ∷ k ∷ ks) (j ∷ l ∷ ls) (hi, his) (hj, hjs) e =
    let (same, rest) =
      printed-injective i j (b',' ∷ join_ids (k ∷ ks)) (b',' ∷ join_ids (l ∷ ls)) hi hj
        (unfold is_digit in refl) (unfold is_digit in refl) e in
    cong_cons i j (k ∷ ks) (l ∷ ls) same
      (join_ids-injective (k ∷ ks) (l ∷ ls) his hjs (tail-eq_of_cons-eq rest))
  where
    cong_cons : (i j : ℤ) (is js : List ℤ) → i ≡ j → is ≡ js → i ∷ is ≡ j ∷ js
    cong_cons i j is js p q = cc

-- The URL for some posts tells the topic and the ids of the posts, in their order, where all of them
-- fit an `int`: no two requests for posts are confused.
pub make_url_for_post_ids-injective :
    (topic₁ topic₂ : ℤ) (ids₁ ids₂ : List ℤ)
    → IsInt topic₁
    → IsInt topic₂
    → All IsInt ids₁
    → All IsInt ids₂
    → make_url_for_post_ids topic₁ ids₁ ≡ make_url_for_post_ids topic₂ ids₂
    → (topic₁ ≡ topic₂) × (ids₁ ≡ ids₂)
unfolding make_url_for_post_ids continue_with is_digit
make_url_for_post_ids-injective topic₁ topic₂ ids₁ ids₂ h₁ h₂ hs₁ hs₂ e =
    let (topic, rest) =
      printed-injective topic₁ topic₂ _ _ h₁ h₂ refl refl
        (cancel_prefix (codes "https://meta.discourse.org/t/") _ _ e) in
    (
      topic,
      join_ids-injective ids₁ ids₂ hs₁ hs₂
          (cancel_prefix (codes "/posts.json?post_ids%5B%5D=") _ _ rest),
    )

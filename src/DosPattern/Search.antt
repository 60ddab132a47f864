-- ===== src/DosPattern/Search.antt =====
-- The search of `pattern_match` among the simple patterns: those of characters, `p_single` and `p_any`.
use amitools.Prelude.{
  ℕ, zero, suc, ◌+◌, ◌-◌, ◌≤◌, ◌<◌, ◌≡◌, refl, sym, ap, ◌∙◌, ◌⊎◌, inl, inr, Bool, true, false, not,
  none, some, List, [], ◌∷◌, ◌==◌, ltb, leb, ◌&&◌, ◌||◌, if◌then◌else◌, length, get_elem?, drop,
  arith, ==_iff, Bool-cases, Option-cases,
}
use mathlib.Core.Path.{subst}
use amitools.DosPattern.{p_any, p_single, Pattern}
use amitools.DosPattern.Parse.{tr_of, is_end}
use amitools.DosPattern.Glob.{
  glob, all_simple, is_simple, glob-any, glob-one, glob-none, all_simple-get_elem?,
}
use amitools.DosPattern.Match.{
  Marker, marker, Matching, MatchStep, next, matched, failed, index_error, type_error, MatchResult,
  start, result, raised, in_history, next_marker, resumed, at_pos, step_any, step_char, step_single,
  step_eof, match_step, match_loop, pattern_match,
}

suc_add : (i : ℕ) → suc (i + 1) ≡ suc i + 1
suc_add i = omega arith

-- What is left of a list from a position on.
drop-cases {ℓ} :
    {A : Type ℓ} (xs : List A) (i : ℕ)
    → ((get_elem? xs i ≡ none) × (drop i xs ≡ []) × (length xs ≤ i))
      ⊎ ((x : A) × (get_elem? xs i ≡ some x) × (drop i xs ≡ x ∷ drop (i + 1) xs) × (i < length xs))
drop-cases [] zero = inl (refl, refl, omega arith)
drop-cases [] (suc i) = inl (refl, refl, omega arith)
drop-cases (x ∷ xs) zero = inr (x, refl, refl, omega arith)
drop-cases (x ∷ xs) (suc i) = elim (drop-cases xs i) [
  | inl (e, f, g) ↦ inl (e, f, omega arith)
  | inr (y, e, f, g) ↦ inr (y, e, f ∙ ap (λ k. y ∷ drop k (x ∷ xs)) (suc_add i), omega arith)
]

-- The work that is left at a configuration.
unfoldable cost : ℕ → ℕ
cost zero = 1
cost (suc k) = suc (cost k + cost k)

cost-pos : (k : ℕ) → 0 < cost k
unfolding cost
cost-pos zero = omega arith
cost-pos (suc k) = omega arith

cost-lt : (j k : ℕ) → j < k → cost j < cost k
unfolding cost
cost-lt zero zero h = elim h [ ]
cost-lt (suc j) zero h = elim h [ ]
cost-lt zero (suc k) h = omega (arith, cost-pos k)
cost-lt (suc j) (suc k) h = omega (arith, cost-lt j k (omega arith))

cost-suc : (j k : ℕ) → k ≡ suc j → cost k ≡ suc (cost j + cost j)
unfolding cost
cost-suc j zero h = absurd (omega arith)
cost-suc j (suc k) h = ap (λ i. suc (cost i + cost i)) (omega arith)

same_sum : (m n p q : ℕ) → p < m → q < n → m - (p + 1) + (n - q) ≡ m - p + (n - (q + 1))
same_sum m n p q h k = omega arith

module _ (tr : ℕ → ℕ) (pat in_str : List ℕ) where
  unfoldable means : ℕ → ℕ → Bool
  means p s = glob tr (drop p pat) (drop s in_str)

  unfoldable cost_at : ℕ → ℕ → ℕ
  cost_at p s = cost (length pat - p + (length in_str - s))

  -- Some marker of the stack at `k` or behind finds a match.
  abbrev finds : ℕ → List Marker → Bool
  finds k [] = false
  finds k (m ∷ ms) = (leb k m.str_pos && means m.pat_pos m.str_pos) || finds k ms

  abbrev total : List Marker → ℕ
  total [] = 0
  total (m ∷ ms) = cost_at m.pat_pos m.str_pos + total ms

  abbrev IsPlain : List Marker → Type 0
  IsPlain [] = Unit
  IsPlain (m ∷ ms) = (m.flag ≡ false) × (m.str_pos ≤ length in_str) × IsPlain ms

  abbrev reach : ℕ → Matching → Bool
  reach k s = (leb k s.str_pos && means s.pat_pos s.str_pos) || finds k s.stack

  -- What has been tried and would match is found further on.
  abbrev IsTried : List Marker → Matching → Type 0
  IsTried [] s = Unit
  IsTried (h ∷ hs) s = (means h.pat_pos h.str_pos ≡ true → reach h.str_pos s ≡ true) × IsTried hs s

  IsTried-map :
      (hs : List Marker) (s s' : Matching)
      → ((k : ℕ) → reach k s ≡ true → reach k s' ≡ true)
      → IsTried hs s
      → IsTried hs s'
  IsTried-map [] s s' f h = tt
  IsTried-map (m ∷ hs) s s' f h = (λ e. f m.str_pos (h.0 e), IsTried-map hs s s' f h.1)

  finds-le : (j k : ℕ) (ms : List Marker) → j ≤ k → finds k ms ≡ true → finds j ms ≡ true
  finds-le j k [] h e = e
  finds-le j k (m ∷ ms) h e = ground (arith, finds-le j k ms)

  in_history-reach :
      (p q : ℕ) (hs : List Marker) (s : Matching)
      → in_history (marker false p q) hs ≡ true
      → IsTried hs s
      → means p q ≡ true
      → reach q s ≡ true
  in_history-reach p q [] s h t e = ground arith
  in_history-reach p q (m ∷ hs) s h t e = ground (arith, t, in_history-reach p q hs s)

  record Inv (s : Matching) : Type 0 where
    inside : s.str_pos ≤ length in_str
    plain : IsPlain s.stack
    tried : IsTried s.history s

  mk-Inv :
      (s : Matching) → s.str_pos ≤ length in_str → IsPlain s.stack → IsTried s.history s → Inv s
  mk-Inv s h k t = record { inside = h; plain = k; tried = t }

  abbrev work : Matching → ℕ
  work s = cost_at s.pat_pos s.str_pos + total s.stack

  -- What a step comes to: it gives the answer, or leaves less work and the same answer.
  abbrev Outcome : Matching → MatchStep → Type 0
  Outcome s matched = reach 0 s ≡ true
  Outcome s failed = reach 0 s ≡ false
  Outcome s (next s') = Inv s' × (work s' < work s) × (reach 0 s' ≡ reach 0 s)
  Outcome s _ = ⊥

  cost_at-pos : (p s : ℕ) → 0 < cost_at p s
  unfolding cost_at
  cost_at-pos p s = cost-pos _

  cost_at-suc : (p q : ℕ) → p < length pat → cost_at (p + 1) q < cost_at p q
  unfolding cost_at
  cost_at-suc p q h = cost-lt _ _ (omega arith)

  cost_at-any :
      (p q : ℕ)
      → q < length in_str
      → p < length pat
      → cost_at (p + 1) q + cost_at p (q + 1) < cost_at p q
  unfolding cost_at
  cost_at-any p q k h =
      let j = length pat - (p + 1) + (length in_str - q) in
      let e = cost-suc j (length pat - p + (length in_str - q)) (omega arith) in
      let f = ap cost (same_sum (length pat) (length in_str) p q h k) in omega (arith, e, f)

  abbrev at : ℕ → ℕ → List Marker → List Marker → Matching
  at p q stack history = record { pat_pos = p; str_pos = q; stack = stack; history = history }

  next_marker_eq :
      (p q : ℕ) (m : Marker) (ms hs : List Marker)
      → m.flag ≡ false
      → next_marker (length in_str) (at p q (m ∷ ms) hs) ≡ next (resumed m ms (m ∷ hs))
  unfolding next_marker
  next_marker_eq p q m ms hs h = ground (arith, h)

  next_marker-Outcome :
      (p q : ℕ) (stack hs : List Marker)
      → Inv (at p q stack hs)
      → means p q ≡ false
      → Outcome (at p q stack hs) (next_marker (length in_str) (at p q stack hs))
  unfolding next_marker
  next_marker-Outcome p q [] hs i e = ground (arith, e)
  next_marker-Outcome p q (m ∷ ms) hs i e =
      let s = at p q (m ∷ ms) hs in
      let s' = resumed m ms (m ∷ hs) in
      let tried = IsTried-map hs s s' (λ k r. ground (arith, r, e)) i.tried in
      let inv = mk-Inv s' i.plain.1 i.plain.2 ((λ x. ground (arith, x)), tried) in
      subst (Outcome s) (sym (next_marker_eq p q m ms hs i.plain.0))
        (inv, omega (arith, cost_at-pos p q), ground (arith, e))

  advance-Outcome :
      (p q : ℕ) (stack hs : List Marker)
      → Inv (at p q stack hs)
      → p < length pat
      → q < length in_str
      → means p q ≡ means (p + 1) (q + 1)
      → Outcome (at p q stack hs) (next (at (p + 1) (q + 1) stack hs))
  unfolding cost_at
  advance-Outcome p q stack hs i h k e =
      let s = at p q stack hs in
      let s' = at (p + 1) (q + 1) stack hs in
      let tried = IsTried-map hs s s' (λ k r. ground (arith, r, e)) i.tried in
      let less =
        cost-lt (length pat - (p + 1) + (length in_str - (q + 1)))
          (length pat - p + (length in_str - q)) (omega arith) in
      (mk-Inv s' (omega arith) i.plain tried, omega (arith, less), ground (arith, e))

  -- `p_any` where its marker has been tried, or the string has ended.
  skip-Outcome :
      (p q : ℕ) (stack hs : List Marker)
      → Inv (at p q stack hs)
      → p < length pat
      → means p q ≡ (means (p + 1) q || (ltb q (length in_str) && means p (q + 1)))
      → (ltb q (length in_str) && means p (q + 1) ≡ true → finds (q + 1) stack ≡ true)
      → Outcome (at p q stack hs) (next (at (p + 1) q stack hs))
  skip-Outcome p q stack hs i h e f =
      let s = at p q stack hs in
      let s' = at (p + 1) q stack hs in
      let g = λ (k : ℕ). finds-le k (q + 1) stack in
      let tried = IsTried-map hs s s' (λ k r. ground (arith, r, e, f, g k)) i.tried in
      (
        mk-Inv s' i.inside i.plain tried,
        omega (arith, cost_at-suc p q h),
        ground (arith, e, f, g 0),
      )

  push-Outcome :
      (p q : ℕ) (stack hs : List Marker)
      → Inv (at p q stack hs)
      → p < length pat
      → q < length in_str
      → means p q ≡ (means (p + 1) q || (ltb q (length in_str) && means p (q + 1)))
      → Outcome (at p q stack hs) (next (at (p + 1) q (marker false p (q + 1) ∷ stack) hs))
  push-Outcome p q stack hs i h k e =
      let s = at p q stack hs in
      let s' = at (p + 1) q (marker false p (q + 1) ∷ stack) hs in
      let tried = IsTried-map hs s s' (λ k r. ground (arith, r, e)) i.tried in
      (
        mk-Inv s' i.inside (refl, omega arith, i.plain) tried,
        omega (arith, cost_at-any p q k h),
        ground (arith, e),
      )

  step_any-skip :
      (p q : ℕ) (stack hs : List Marker)
      → (ltb q (length in_str) && not (in_history (marker false p (q + 1)) hs)) ≡ false
      → step_any (length in_str) (at p q stack hs) ≡ next (at (p + 1) q stack hs)
  unfolding step_any
  step_any-skip p q stack hs h = ground (arith, h)

  step_any-push :
      (p q : ℕ) (stack hs : List Marker)
      → (ltb q (length in_str) && not (in_history (marker false p (q + 1)) hs)) ≡ true
      → step_any (length in_str) (at p q stack hs)
        ≡ next (at (p + 1) q (marker false p (q + 1) ∷ stack) hs)
  unfolding step_any
  step_any-push p q stack hs h = ground (arith, h)

  any-Outcome :
      (p q : ℕ) (stack hs : List Marker)
      → Inv (at p q stack hs)
      → p < length pat
      → means p q ≡ (means (p + 1) q || (ltb q (length in_str) && means p (q + 1)))
      → Outcome (at p q stack hs) (step_any (length in_str) (at p q stack hs))
  any-Outcome p q stack hs i h e =
      let s = at p q stack hs in
      let pushes = ltb q (length in_str) && not (in_history (marker false p (q + 1)) hs) in
      elim (Bool-cases pushes) [
        | inl f ↦
            subst (Outcome s) (sym (step_any-push p q stack hs f))
              (push-Outcome p q stack hs i h (ground (arith, f)) e)
        | inr f ↦ subst (Outcome s) (sym (step_any-skip p q stack hs f)) (
            skip-Outcome p q stack hs i h e
              (λ x. ground (arith, x, f, in_history-reach p (q + 1) hs s, i.tried)))
      ]

  means-any :
      (p q : ℕ)
      → drop p pat ≡ p_any ∷ drop (p + 1) pat
      → means p q ≡ (means (p + 1) q || (ltb q (length in_str) && means p (q + 1)))
  unfolding means
  means-any p q e = elim (drop-cases in_str q) [
    | inl (f, g, h) ↦ rw (e, g) (ground (arith, h, glob-any tr (drop (p + 1) pat) []))
    | inr (x, f, g, h) ↦
        let r = drop (p + 1) pat in
        let t = drop (q + 1) in_str in
        rw (e, g) (ground (arith, h, glob-any tr r (x ∷ t), glob-any tr r t))
  ]

  means-end : (p q : ℕ) → drop p pat ≡ [] → means p q ≡ is_end (drop q in_str)
  unfolding means glob
  means-end p q e = rw e refl

  eof-means : (p q : ℕ) → q ≤ length in_str → drop p pat ≡ [] → means p q ≡ (q == length in_str)
  eof-means p q h e = elim (drop-cases in_str q) [
    | inl (f, g, k) ↦ ground (arith, means-end p q e, g, k)
    | inr (x, f, g, k) ↦ ground (arith, means-end p q e, g, k)
  ]

  step_eof-stop :
      (s : Matching) → (s.str_pos == length in_str) ≡ true → step_eof (length in_str) s ≡ matched
  unfolding step_eof
  step_eof-stop s h = ground (arith, h)

  step_eof-next :
      (s : Matching)
      → (s.str_pos == length in_str) ≡ false
      → step_eof (length in_str) s ≡ next_marker (length in_str) s
  unfolding step_eof
  step_eof-next s h = ground (arith, h)

  eof-Outcome :
      (p q : ℕ) (stack hs : List Marker)
      → Inv (at p q stack hs)
      → drop p pat ≡ []
      → Outcome (at p q stack hs) (step_eof (length in_str) (at p q stack hs))
  eof-Outcome p q stack hs i e =
      let s = at p q stack hs in
      let m = eof-means p q i.inside e in
      elim (Bool-cases (q == length in_str)) [
        | inl f ↦ subst (Outcome s) (sym (step_eof-stop s f)) (ground (arith, m, f))
        | inr f ↦
            subst (Outcome s) (sym (step_eof-next s f)) (next_marker-Outcome p q stack hs i (m ∙ f))
      ]

  -- A character or `p_single`, which takes the next character of the string if it fits.
  take_one : ℕ → ℕ → ℕ → List Marker → List Marker → MatchStep
  take_one c p q stack hs = elim (get_elem? in_str q) [
    | none ↦ next_marker (length in_str) (at p q stack hs)
    | some x ↦
        if c == p_single || c == tr x
        then next (at (p + 1) (q + 1) stack hs)
        else next_marker (length in_str) (at p q stack hs)
  ]

  means-none :
      (c p q : ℕ)
      → (c == p_any) ≡ false
      → drop p pat ≡ c ∷ drop (p + 1) pat
      → drop q in_str ≡ []
      → means p q ≡ false
  unfolding means
  means-none c p q n e g = rw (e, g) (glob-none tr c (drop (p + 1) pat) n)

  means-one :
      (c x p q : ℕ)
      → (c == p_any) ≡ false
      → drop p pat ≡ c ∷ drop (p + 1) pat
      → drop q in_str ≡ x ∷ drop (q + 1) in_str
      → means p q ≡ ((c == p_single || c == tr x) && means (p + 1) (q + 1))
  unfolding means
  means-one c x p q n e g = rw (e, g) (glob-one tr c x (drop (p + 1) pat) (drop (q + 1) in_str) n)

  take_one-next :
      (c x p q : ℕ) (stack hs : List Marker)
      → get_elem? in_str q ≡ some x
      → (c == p_single || c == tr x) ≡ true
      → take_one c p q stack hs ≡ next (at (p + 1) (q + 1) stack hs)
  unfolding take_one
  take_one-next c x p q stack hs f b = ground (arith, f, b)

  take_one-back :
      (c p q : ℕ) (stack hs : List Marker)
      → ((x : ℕ) → get_elem? in_str q ≡ some x → (c == p_single || c == tr x) ≡ false)
      → take_one c p q stack hs ≡ next_marker (length in_str) (at p q stack hs)
  unfolding take_one
  take_one-back c p q stack hs f = elim (Option-cases (get_elem? in_str q)) [
    | inl e ↦ ground (arith, e)
    | inr (x, e) ↦ ground (arith, e, f x e)
  ]

  take_one-Outcome :
      (c p q : ℕ) (stack hs : List Marker)
      → Inv (at p q stack hs)
      → p < length pat
      → (c == p_any) ≡ false
      → drop p pat ≡ c ∷ drop (p + 1) pat
      → Outcome (at p q stack hs) (take_one c p q stack hs)
  take_one-Outcome c p q stack hs i h n e =
      let s = at p q stack hs in
      elim (drop-cases in_str q) [
        | inl (f, g, k) ↦
            subst (Outcome s) (sym (take_one-back c p q stack hs (λ x y. ground (arith, f, y))))
              (next_marker-Outcome p q stack hs i (means-none c p q n e g))
        | inr (x, f, g, k) ↦
            let m = means-one c x p q n e g in
            elim (Bool-cases (c == p_single || c == tr x)) [
              | inl b ↦
                  subst (Outcome s) (sym (take_one-next c x p q stack hs f b))
                    (advance-Outcome p q stack hs i h k (ground (arith, m, b)))
              | inr b ↦
                  subst (Outcome s)
                    (sym (take_one-back c p q stack hs (λ y z. ground (arith, f, z, b))))
                    (next_marker-Outcome p q stack hs i (ground (arith, m, b)))
            ]
      ]

  next_marker-at_pos : (n q : ℕ) (s : Matching) → next_marker n (at_pos q s) ≡ next_marker n s
  unfolding next_marker
  next_marker-at_pos n q s = refl

  match_step-eof :
      (s : Matching)
      → get_elem? pat s.pat_pos ≡ none
      → match_step tr pat in_str s ≡ step_eof (length in_str) s
  unfolding match_step
  match_step-eof s e = ground (arith, e)

  match_step-any :
      (s : Matching)
      → get_elem? pat s.pat_pos ≡ some p_any
      → match_step tr pat in_str s ≡ step_any (length in_str) s
  unfolding match_step
  match_step-any s e = ground (arith, e)

  match_step-one :
      (c p q : ℕ) (stack hs : List Marker)
      → is_simple c ≡ true
      → (c == p_any) ≡ false
      → get_elem? pat p ≡ some c
      → match_step tr pat in_str (at p q stack hs) ≡ take_one c p q stack hs
  unfolding match_step step_single step_char take_one
  match_step-one c p q stack hs h n e =
      let s = at p q stack hs in
      let back = next_marker-at_pos (length in_str) (p + 1) s in
      elim (drop-cases in_str q) [
        | inl (f, g, k) ↦ ground (arith, e, h, n, f, k, back)
        | inr (x, f, g, k) ↦ ground (arith, e, h, n, f, k, back)
      ]

  match_step-Outcome :
      (p q : ℕ) (stack hs : List Marker)
      → all_simple pat ≡ true
      → Inv (at p q stack hs)
      → Outcome (at p q stack hs) (match_step tr pat in_str (at p q stack hs))
  match_step-Outcome p q stack hs a i =
      let s = at p q stack hs in
      elim (drop-cases pat p) [
        | inl (e, f, g) ↦
            subst (Outcome s) (sym (match_step-eof s e)) (eof-Outcome p q stack hs i f)
        | inr (c, e, f, g) ↦ elim (Bool-cases (c == p_any)) [
          | inl b ↦
              let d = (==_iff c p_any).0 b in
              subst (Outcome s) (sym (match_step-any s (e ∙ ap some d))) (
                any-Outcome p q stack hs i g (means-any p q (f ∙ ap (λ x. x ∷ drop (p + 1) pat) d)))
          | inr b ↦
              let o = take_one-Outcome c p q stack hs i g b f in
              subst (Outcome s)
                (sym (match_step-one c p q stack hs (all_simple-get_elem? pat p c a e) b e)) o
        ]
      ]

  abbrev stepped : ℕ → MatchStep → MatchResult
  stepped fuel r = elim r [
    | next s' ↦ match_loop fuel tr pat in_str s'
    | matched ↦ result true
    | failed ↦ result false
    | index_error ↦ raised
    | type_error ↦ raised
  ]

  stepped-result :
      (fuel : ℕ) (s : Matching) (r : MatchStep)
      → Outcome s r
      → ((s' : Matching)
          → Inv s'
          → work s' < work s
          → match_loop fuel tr pat in_str s' ≡ result (reach 0 s'))
      → stepped fuel r ≡ result (reach 0 s)
  stepped-result fuel s (next s') (j, w, e) f = f s' j w ∙ ap result e
  stepped-result fuel s matched o f = ap result (sym o)
  stepped-result fuel s failed o f = ap result (sym o)
  stepped-result fuel s index_error o f = absurd o
  stepped-result fuel s type_error o f = absurd o

  match_loop-means :
      (fuel : ℕ) (s : Matching)
      → all_simple pat ≡ true
      → Inv s
      → work s ≤ fuel
      → match_loop fuel tr pat in_str s ≡ result (reach 0 s)
  unfolding match_loop
  match_loop-means zero s a i h = absurd (omega (arith, cost_at-pos s.pat_pos s.str_pos))
  match_loop-means (suc fuel) s a i h =
      stepped-result fuel s (match_step tr pat in_str s)
        (match_step-Outcome s.pat_pos s.str_pos s.stack s.history a i)
        (λ s' j w. match_loop-means fuel s' a j (omega arith))

-- The work of a whole search, which is fuel enough.
unfoldable pub match_fuel : ℕ → ℕ → ℕ
unfolding cost
match_fuel m n = cost (m + n)

from_start : (m n : ℕ) → m - 0 + (n - 0) ≡ m + n
from_start m n = omega arith

work-start :
    (f : ℕ → ℕ) (pat in_str : List ℕ)
    → work f pat in_str start ≡ match_fuel (length pat) (length in_str)
unfolding match_fuel cost_at
work-start f pat in_str = omega (arith, ap cost (from_start (length pat) (length in_str)))

reach-start : (f : ℕ → ℕ) (pat in_str : List ℕ) → reach f pat in_str 0 start ≡ glob f pat in_str
unfolding means
reach-start f pat in_str = ground arith

-- On a pattern of characters, `?` and `#?`, `pattern_match` ends within its fuel, and says whether the
-- string is what the pattern means.
pub pattern_match-glob :
    (lower : ℕ → ℕ) (pattern : Pattern) (in_str : List ℕ) (fuel : ℕ)
    → all_simple pattern.pat_str ≡ true
    → match_fuel (length pattern.pat_str) (length in_str) ≤ fuel
    → pattern_match fuel lower pattern in_str
      ≡ result (glob (tr_of lower pattern.ignore_case) pattern.pat_str in_str)
unfolding pattern_match match_fuel
pattern_match-glob lower pattern in_str fuel a h =
    let tr = tr_of lower pattern.ignore_case in
    let pat = pattern.pat_str in
    let h' = work-start tr pat in_str in
    match_loop-means tr pat in_str fuel start a (mk-Inv tr pat in_str start (omega arith) tt tt)
      (omega (arith, h'))
    ∙ ap result (reach-start tr pat in_str)

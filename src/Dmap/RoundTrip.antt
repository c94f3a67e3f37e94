-- ===== src/Dmap/RoundTrip.antt =====
-- Walking the encoding of a forest makes the visits of the forest.
use perun.Base.{
  ℕ, zero, suc, ◌+◌, ◌-◌, ◌≤◌, ◌<◌, ◌^◌, ◌%◌, ◌≡◌, refl, sym, ap, ◌∙◌, true, false, some, none,
  List, [], ◌∷◌, ◌++◌, length, Bytes, ltb, ge→ltb, ◌==◌, ne→==, from_be, be32_bytes, if◌then◌else◌,
  take-append, drop-append, length-append, arith,
}
use perun.Dmap.{Outcome, too_deep, and_then, is_container, tag_bytes, walk_loop, walk_dmap}
use perun.Dmap.Forest.{
  Forest, nil, leaf, branch, encode, visits, height, IsTag, IsProper, run_visits,
}

module _ {S : Type 0} (visit : S → Bytes → Bytes → Outcome S) where
  abbrev nested : ℕ → ℕ → Bytes → Bytes → S → Outcome S
  nested n depth t p s =
      if is_container t
      then (if ltb 16 (depth + 1) then (s, some too_deep) else walk_loop visit n (depth + 1) 0 p s)
      else (s, none)

  -- One turn of the loop on an encoded tag.
  walk_loop-tag_bytes :
      (n depth offset : ℕ) (t p more : Bytes) (s : S)
      → IsTag t
      → length p < 2 ^ 32
      → walk_loop visit (suc n) depth offset (tag_bytes t p ++ more) s
        ≡ and_then
            (and_then (visit s t p) (nested n depth t p))
            (walk_loop visit n depth (offset + 8 + length p) more)
  unfolding walk_loop tag_bytes
  walk_loop-tag_bytes n depth offset (a ∷ b ∷ c ∷ d ∷ []) p more s g h =
      let size : from_be 0 (be32_bytes (length p % 2 ^ 32)) ≡ length p = omega arith in
      let room : ltb (length (tag_bytes (a ∷ b ∷ c ∷ d ∷ []) p ++ more) - 8) (length p) ≡ false =
        ge→ltb _ _ (omega (arith, length-append p more)) in
      let some_left : (length (tag_bytes (a ∷ b ∷ c ∷ d ∷ []) p ++ more) == 0) ≡ false =
        ne→== _ 0 (omega arith) in
      let header : ltb (length (tag_bytes (a ∷ b ∷ c ∷ d ∷ []) p ++ more)) 8 ≡ false =
        ge→ltb _ 8 (omega arith) in
      rw (size, g.printable, take-append p more, drop-append p more, room, some_left, header)
  walk_loop-tag_bytes n depth offset [] p more s g h = absurd (omega (arith, g.four))
  walk_loop-tag_bytes n depth offset (a ∷ []) p more s g h = absurd (omega (arith, g.four))
  walk_loop-tag_bytes n depth offset (a ∷ b ∷ []) p more s g h = absurd (omega (arith, g.four))
  walk_loop-tag_bytes n depth offset (a ∷ b ∷ c ∷ []) p more s g h = absurd (omega (arith, g.four))
  walk_loop-tag_bytes n depth offset (a ∷ b ∷ c ∷ d ∷ e ∷ t) p more s g h =
      absurd (omega (arith, g.four))

module _ {S : Type 0} (visit : S → Bytes → Bytes → Outcome S) where
  nested-plain :
      (n depth : ℕ) (t p : Bytes) (s : S)
      → is_container t ≡ false
      → nested visit n depth t p s ≡ (s, none)
  nested-plain n depth t p s e = rw e

  nested-inner :
      (n depth : ℕ) (t p : Bytes) (s : S)
      → is_container t ≡ true
      → depth + 1 ≤ 16
      → nested visit n depth t p s ≡ walk_loop visit n (depth + 1) 0 p s
  nested-inner n depth t p s e h = rw (e, ge→ltb 16 (depth + 1) h)

module _ {S : Type 0} where
  and_then_pure : (o : Outcome S) → and_then o (λ s. (s, none)) ≡ o
  and_then_pure (s, none) = refl
  and_then_pure (s, some e) = refl

  and_then_cong :
      (o : Outcome S) (f g : S → Outcome S) → ((s : S) → f s ≡ g s) → and_then o f ≡ and_then o g
  and_then_cong (s, none) f g h = h s
  and_then_cong (s, some e) f g h = refl

  and_then_assoc :
      (o : Outcome S) (f g : S → Outcome S)
      → and_then (and_then o f) g ≡ and_then o (λ s. and_then (f s) g)
  and_then_assoc (s, none) f g = refl
  and_then_assoc (s, some e) f g = refl

pub length-tag_bytes :
    (t p more : Bytes) → length t ≡ 4 → length (tag_bytes t p ++ more) ≡ 8 + length p + length more
unfolding tag_bytes
length-tag_bytes t p more h = omega (
  arith,
  length-append (t ++ (be32_bytes (length p % 2 ^ 32) ++ p)) more,
  length-append t (be32_bytes (length p % 2 ^ 32) ++ p),
)

module _ {S : Type 0} (visit : S → Bytes → Bytes → Outcome S) where
  run_visits-append :
      (vs ws : List (Bytes × Bytes)) (s : S)
      → run_visits visit (vs ++ ws) s ≡ and_then (run_visits visit vs s) (run_visits visit ws)
  run_visits-append [] ws s = refl
  run_visits-append ((t, p) ∷ vs) ws s =
      and_then_cong (visit s t p) _ _ (run_visits-append vs ws)
      ∙ sym (and_then_assoc (visit s t p) (run_visits visit vs) (run_visits visit ws))

  abbrev after : Forest → ℕ → ℕ → ℕ → S → Outcome S
  after more n depth offset = walk_loop visit n depth offset (encode more)

  walk_loop-encode :
      (f : Forest) (n depth offset : ℕ) (s : S)
      → IsProper f
      → length (encode f) < n
      → depth + height f ≤ 16
      → walk_loop visit n depth offset (encode f) s ≡ run_visits visit (visits f) s
  walk_loop-encode f zero depth offset s w l d = absurd (omega arith)
  walk_loop-encode nil (suc n) depth offset s w l d = unfold walk_loop in refl
  walk_loop-encode (leaf t p more) (suc n) depth offset s (tag, plain, size, w) l d =
      walk_loop-tag_bytes visit n depth offset t p (encode more) s tag size
      ∙ ap (λ o. and_then o (after more n depth (offset + 8 + length p)))
          (and_then_cong (visit s t p) (nested visit n depth t p) (λ s'. (s', none))
              (λ s'. nested-plain visit n depth t p s' plain)
            ∙ and_then_pure (visit s t p))
      ∙ and_then_cong (visit s t p) (after more n depth (offset + 8 + length p))
          (run_visits visit (visits more))
          (λ s'.
            walk_loop-encode more n depth (offset + 8 + length p) s' w
              (omega (arith, length-tag_bytes t p (encode more) tag.four)) (omega arith))
  walk_loop-encode (branch t f more) (suc n) depth offset s (tag, inner, size, wf, w) l d =
      let next = after more n depth (offset + 8 + length (encode f)) in
      walk_loop-tag_bytes visit n depth offset t (encode f) (encode more) s tag size
      ∙ and_then_assoc (visit s t (encode f)) (nested visit n depth t (encode f)) next
      ∙ and_then_cong (visit s t (encode f))
          (λ s'. and_then (nested visit n depth t (encode f) s') next)
          (run_visits visit (visits f ++ visits more))
          (λ s'.
            ap (λ o. and_then o next)
              (nested-inner visit n depth t (encode f) s' inner (omega arith)
                ∙ walk_loop-encode f n (depth + 1) 0 s' wf
                    (omega (arith, length-tag_bytes t (encode f) (encode more) tag.four))
                    (omega arith))
            ∙ and_then_cong (run_visits visit (visits f) s') next (run_visits visit (visits more))
                (λ s''.
                  walk_loop-encode more n depth (offset + 8 + length (encode f)) s'' w
                    (omega (arith, length-tag_bytes t (encode f) (encode more) tag.four))
                    (omega arith))
            ∙ sym (run_visits-append (visits f) (visits more) s'))

  -- Walking the encoding of a proper forest of height at most 16 makes the visits of the forest, in
  -- order and up to the visitor's first error.
  pub walk_dmap-encode :
      (f : Forest) (s : S)
      → IsProper f
      → height f ≤ 16
      → walk_dmap visit (encode f) 0 s ≡ run_visits visit (visits f) s
  unfolding walk_dmap
  walk_dmap-encode f s w d =
      walk_loop-encode f (suc (length (encode f))) 0 0 s w (omega arith) (omega arith)

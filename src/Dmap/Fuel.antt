-- ===== src/Dmap/Fuel.antt =====
-- The walk ends on every input: the fuel that it is given never runs out.
use perun.Base.{
  ℕ, zero, suc, ◌+◌, ◌-◌, ◌<◌, ◌≡◌, ◌≢◌, refl, Bool, true, false, not, some, none, length, all,
  take, drop, Bytes, ltb, ltb→ge, ◌==◌, if◌then◌else◌, from_be, length-drop, length-take, arith,
}
use perun.Dmap.{Outcome, out_of_fuel, and_then, is_container, is_printable, walk_loop, walk_dmap}

abbrev pub IsFueled : {S : Type 0} → Outcome S → Type 0
IsFueled o = o.1 ≢ some out_of_fuel

module _ {S : Type 0} where
  and_then-IsFueled :
      (o : Outcome S) (f : S → Outcome S)
      → IsFueled o
      → ((s : S) → IsFueled (f s))
      → IsFueled (and_then o f)
  and_then-IsFueled (s, none) f h k = k s
  and_then-IsFueled (s, some e) f h k = h

  if-IsFueled :
      (b : Bool) (o p : Outcome S)
      → (b ≡ true → IsFueled o)
      → (b ≡ false → IsFueled p)
      → IsFueled (if b then o else p)
  if-IsFueled true o p h k = h refl
  if-IsFueled false o p h k = k refl

module _ {S : Type 0} (visit : S → Bytes → Bytes → Outcome S)
    (own : (s : S) (t p : Bytes) → IsFueled (visit s t p)) where
  walk_loop-IsFueled :
      (n depth offset : ℕ) (rest : Bytes) (s : S)
      → length rest < n
      → IsFueled (walk_loop visit n depth offset rest s)
  unfolding walk_loop
  walk_loop-IsFueled zero depth offset rest s h = absurd (omega arith)
  walk_loop-IsFueled (suc n) depth offset rest s h =
      let tag = take 4 rest in
      let len = from_be 0 (take 4 (drop 4 rest)) in
      if-IsFueled (length rest == 0) _ _ (λ _ e. cc)
        (λ some_left.
          if-IsFueled (ltb (length rest) 8) _ _ (λ _ e. cc)
            (λ header.
              if-IsFueled (not (all is_printable tag)) _ _ (λ _ e. cc)
                (λ _.
                  if-IsFueled (ltb (length rest - 8) len) _ _ (λ _ e. cc)
                    (λ _.
                      and_then-IsFueled _ _
                        (and_then-IsFueled (visit s tag (take len (drop 8 rest))) _
                          (own s tag (take len (drop 8 rest)))
                          (λ s1.
                            if-IsFueled (is_container tag) _ _
                              (λ _.
                                if-IsFueled (ltb 16 (depth + 1)) _ _ (λ _ e. cc)
                                  (λ _.
                                    walk_loop-IsFueled n (depth + 1) 0 (take len (drop 8 rest)) s1 (
                                      omega (
                                        arith,
                                        length-take len (drop 8 rest),
                                        length-drop 8 rest,
                                        ltb→ge (length rest) 8 header,
                                      ))))
                              (λ _ e. cc)))
                        (λ s2.
                          walk_loop-IsFueled n depth (offset + 8 + len) (drop len (drop 8 rest)) s2
                            (omega (
                              arith,
                              length-drop len (drop 8 rest),
                              length-drop 8 rest,
                              ltb→ge (length rest) 8 header,
                            )))))))

  -- With a visitor that never reports a lack of fuel itself, `walk_dmap` never ends for lack of
  -- fuel.
  pub walk_dmap-IsFueled :
      (bytes : Bytes) (depth : ℕ) (s : S) → IsFueled (walk_dmap visit bytes depth s)
  unfolding walk_dmap
  walk_dmap-IsFueled bytes depth s =
      if-IsFueled (ltb 16 depth) _ _ (λ _ e. cc)
        (λ _. walk_loop-IsFueled (suc (length bytes)) depth 0 bytes s (omega arith))

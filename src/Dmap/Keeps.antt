-- ===== src/Dmap/Keeps.antt =====
-- A walk keeps what its visitor keeps, errors included.
use perun.Base.{
  ℕ, zero, suc, ◌+◌, ◌-◌, Bool, true, false, not, some, none, length, all, take, drop, Bytes, ltb,
  ◌==◌, if◌then◌else◌, from_be,
}
use perun.Dmap.{Outcome, and_then, is_container, is_printable, walk_loop, walk_dmap}

module _ {S : Type 0} (P : S → Type 0) where
  and_then-keeps :
      (o : Outcome S) (f : S → Outcome S) → P o.0 → ((s : S) → P s → P (f s).0) → P (and_then o f).0
  and_then-keeps (s, none) f h k = k s h
  and_then-keeps (s, some e) f h k = h

  if-keeps : (b : Bool) (o p : Outcome S) → P o.0 → P p.0 → P (if b then o else p).0
  if-keeps true o p h k = h
  if-keeps false o p h k = k

module _ {S : Type 0} (P : S → Type 0) (visit : S → Bytes → Bytes → Outcome S)
    (visit_keeps : (s : S) (t p : Bytes) → P s → P (visit s t p).0) where
  walk_loop-keeps :
      (n depth offset : ℕ) (rest : Bytes) (s : S)
      → P s
      → P (walk_loop visit n depth offset rest s).0
  unfolding walk_loop
  walk_loop-keeps zero depth offset rest s h = h
  walk_loop-keeps (suc n) depth offset rest s h =
      let tag = take 4 rest in
      let len = from_be 0 (take 4 (drop 4 rest)) in
      if-keeps P (length rest == 0) _ _ h (
        if-keeps P (ltb (length rest) 8) _ _ h (
          if-keeps P (not (all is_printable tag)) _ _ h (
            if-keeps P (ltb (length rest - 8) len) _ _ h (
              and_then-keeps P _ _
                (and_then-keeps P (visit s tag (take len (drop 8 rest))) _
                  (visit_keeps s tag (take len (drop 8 rest)) h)
                  (λ s1 h1.
                    if-keeps P (is_container tag) _ _
                      (if-keeps P (ltb 16 (depth + 1)) _ _ h1
                        (walk_loop-keeps n (depth + 1) 0 (take len (drop 8 rest)) s1 h1))
                      h1))
                (λ s2 h2.
                  walk_loop-keeps n depth (offset + 8 + len) (drop len (drop 8 rest)) s2 h2)))))

  pub walk_dmap-keeps :
      (bytes : Bytes) (depth : ℕ) (s : S) → P s → P (walk_dmap visit bytes depth s).0
  unfolding walk_dmap
  walk_dmap-keeps bytes depth s h =
      if-keeps P (ltb 16 depth) _ _ h (walk_loop-keeps (suc (length bytes)) depth 0 bytes s h)

-- ===== src/Dmap/Items.antt =====
-- The request body of `items_body`, read back by `first_uint`.
use perun.Base.{
  ℕ, ◌+◌, ◌<◌, ◌^◌, ◌≡◌, refl, ap, ◌∙◌, all, true, some, none, [], ◌∷◌, ◌++◌, append-nil, length,
  Bytes, codes, be32_bytes, eq_bytes, from_be-be32_bytes, length-append, arith,
}
use perun.Dmap.{is_container, is_printable, tag_bytes, items_body, uint_visit, first_uint}
use perun.Dmap.Forest.{Forest, nil, leaf, branch, encode, visits, IsTag, IsProper, run_visits}
use perun.Dmap.RoundTrip.{walk_dmap-encode}

module _ (now session_id revision : ℕ) (query : Bytes) where
  abbrev fields : Forest
  fields = leaf (codes "mstc") (be32_bytes now) (
      leaf (codes "mlid") (be32_bytes session_id) (
        leaf (codes "mikd") (2 ∷ []) (
          leaf (codes "musr") (be32_bytes revision) (
            leaf (codes "mder") (be32_bytes 0)
              (leaf (codes "mque") query (leaf (codes "aetl") [] nil))))))

  abbrev request : Forest
  request = branch (codes "adsr") fields nil

  encode-request : encode request ≡ items_body now session_id revision query
  unfolding items_body
  encode-request = rw (append-nil, append-nil)

  length-fields : length (encode fields) ≡ 73 + length query
  unfolding tag_bytes
  length-fields = omega (arith, length-append query (tag_bytes (codes "aetl") [] ++ []))

  tag4 : (t : Bytes) → length t ≡ 4 → all is_printable t ≡ true → IsTag t
  tag4 t h k = record { four = h; printable = k }

  fields-IsProper : length query < 2 ^ 31 → IsProper fields
  unfolding is_container eq_bytes
  fields-IsProper h = (
    tag4 (codes "mstc") refl refl,
    refl,
    omega arith,
    (
      tag4 (codes "mlid") refl refl,
      refl,
      omega arith,
      (
        tag4 (codes "mikd") refl refl,
        refl,
        omega arith,
        (
          tag4 (codes "musr") refl refl,
          refl,
          omega arith,
          (
            tag4 (codes "mder") refl refl,
            refl,
            omega arith,
            (
              tag4 (codes "mque") refl refl,
              refl,
              omega arith,
              (tag4 (codes "aetl") refl refl, refl, omega arith, tt),
            ),
          ),
        ),
      ),
    ),
  )

  request-IsProper : length query < 2 ^ 31 → IsProper request
  unfolding is_container eq_bytes
  request-IsProper h =
      (tag4 (codes "adsr") refl refl, refl, omega (arith, length-fields), fields-IsProper h, tt)

  first_uint-visits :
      (tag : Bytes)
      → length query < 2 ^ 31
      → first_uint (items_body now session_id revision query) tag
        ≡ (run_visits (uint_visit tag) (visits request) none).0
  unfolding first_uint
  first_uint-visits tag h = rw (← encode-request) (
      ap (λ o. o.0)
        (walk_dmap-encode (uint_visit tag) request none (request-IsProper h) (omega arith)))

  -- The request body is a proper DMAP document: for words below 2 ^ 32 and a query below 2 ^ 31
  -- bytes, `first_uint` reads back the time, the session id and the revision that went in.
  pub first_uint-items_body :
      now < 2 ^ 32
      → session_id < 2 ^ 32
      → revision < 2 ^ 32
      → length query < 2 ^ 31
      → (first_uint (items_body now session_id revision query) (codes "mstc") ≡ some now)
        × (first_uint (items_body now session_id revision query) (codes "mlid") ≡ some session_id)
        × (first_uint (items_body now session_id revision query) (codes "musr") ≡ some revision)
  unfolding uint_visit eq_bytes
  first_uint-items_body a b c h = (
    first_uint-visits (codes "mstc") h ∙ ap some (from_be-be32_bytes now a),
    first_uint-visits (codes "mlid") h ∙ ap some (from_be-be32_bytes session_id b),
    first_uint-visits (codes "musr") h ∙ ap some (from_be-be32_bytes revision c),
  )

-- ===== src/Mcp/Pagination/Complete.antt =====
-- A client that follows the cursors of mcp/pagination.ts gets every item once, in order.
use mathlib.Core.List.{append-nil}
use encore_mcp_base.Base.{
  ℕ, zero, suc, ◌+◌, ◌≤◌, ◌<◌, String, ◌≡◌, refl, sym, ap, ◌∙◌, ◌⊎◌, true, false, Option, none,
  some, List, [], ◌∷◌, ◌++◌, Result, ok, ◌>>=◌, arith, ltb, leb, length, take, drop, eq_refl,
  Bool-cases, inl, inr, if◌then◌else◌,
}
use encore_mcp_base.Mcp.Json.{Json, string, Fields, no_fields, field}
use encore_mcp_base.Mcp.Methods.{Handlers, optional_method_params, validate_method_params}
use encore_mcp_base.Mcp.Pagination.{
  Page, is_cursor_text, cursor_json, decode_cursor, cursor_offset, paginated_list,
}

module _ {T : Type 0} where
  take-drop : (k : ℕ) (xs : List T) → take k xs ++ drop k xs ≡ xs
  take-drop zero xs = refl
  take-drop (suc k) [] = refl
  take-drop (suc k) (x ∷ xs) = ap (λ ys. x ∷ ys) (take-drop k xs)

  drop-empty : (k : ℕ) → drop {A = T} k [] ≡ []
  drop-empty zero = refl
  drop-empty (suc k) = refl

  drop-drop : (k n m : ℕ) (xs : List T) → m ≡ k + n → drop n (drop k xs) ≡ drop m xs
  drop-drop zero n m xs e = ap (λ i. drop i xs) (omega (arith, e))
  drop-drop (suc k) n m [] e = drop-empty n ∙ sym (drop-empty m)
  drop-drop (suc k) n zero (x ∷ xs) e = absurd (omega (arith, e))
  drop-drop (suc k) n (suc m) (x ∷ xs) e = drop-drop k n m xs (omega (arith, e))

  drop-all : (k : ℕ) (xs : List T) → length xs ≤ k → drop k xs ≡ []
  drop-all zero [] h = refl
  drop-all zero (x ∷ xs) h = absurd (omega arith)
  drop-all (suc k) [] h = refl
  drop-all (suc k) (x ∷ xs) h = drop-all k xs (omega arith)

  -- The items of a page, and what follows.
  page-rest : (k n : ℕ) (xs : List T) → take n (drop k xs) ++ drop (k + n) xs ≡ drop k xs
  page-rest k n xs =
      ap (λ ys. take n (drop k xs) ++ ys) (sym (drop-drop k n (k + n) xs refl))
      ∙ take-drop n (drop k xs)

  page-last : (k n : ℕ) (xs : List T) → length xs ≤ k + n → take n (drop k xs) ≡ drop k xs
  page-last k n xs h =
      sym (append-nil (take n (drop k xs)))
      ∙ ap (λ ys. take n (drop k xs) ++ ys) (sym (drop-all (k + n) xs h))
      ∙ page-rest k n xs

module _ (encode : Json → String) (decode : String → Option Json) (handlers : Handlers)
    (method : String) {T : Type 0} (items : List T) (page_size : ℕ) where
  -- A client asks for the page of a cursor, or for the first.
  abbrev asks : Option String → Option Fields
  asks none = none
  asks (some cursor) = some (field "cursor" (string cursor) no_fields)

  -- It follows the cursors until a page has none.
  unfoldable pub follow : ℕ → Option String → Result (List T)
  follow zero cursor = ok []
  follow (suc fuel) cursor = do
    page ← paginated_list encode decode handlers (asks cursor) method items page_size
    elim page.next_cursor [
      | none ↦ ok page.items
      | some next ↦ do rest ← follow fuel (some next); ok (page.items ++ rest)
    ]

  -- What is taken of the surroundings: a request without `_meta` has no error there, a cursor of
  -- an offset in the list is of the pattern, and it is read back.
  pub record IsFaithful : Type 0 where
    pub no_meta : handlers.request_meta_error none method ≡ none
    pub is_text :
        (offset : ℕ)
        → offset < length items
        → is_cursor_text (encode (cursor_json method offset)) ≡ true
    pub read_back :
        (offset : ℕ)
        → offset < length items
        → decode (encode (cursor_json method offset)) ≡ some (cursor_json method offset)

  -- The cursor of an offset, none at the start.
  abbrev cursor_at : ℕ → Option String
  cursor_at zero = none
  cursor_at (suc n) = some (encode (cursor_json method (suc n)))

  cursor_at-pos :
      (offset : ℕ) → 0 < offset → cursor_at offset ≡ some (encode (cursor_json method offset))
  cursor_at-pos zero positive = absurd (omega (arith, positive))
  cursor_at-pos (suc n) positive = refl

  -- The page at an offset.
  abbrev page_at : ℕ → Page T
  page_at offset = record {
    items = take page_size (drop offset items);
    next_cursor =
        if ltb (offset + page_size) (length items)
        then some (encode (cursor_json method (offset + page_size)))
        else none;
  }

  paginated_list-cursor_at :
      IsFaithful
      → (offset : ℕ) → (offset ≡ 0) ⊎ (offset < length items)
      → paginated_list encode decode handlers (asks (cursor_at offset)) method items page_size
        ≡ ok (page_at offset)
  unfolding paginated_list optional_method_params validate_method_params cursor_offset decode_cursor
  paginated_list-cursor_at faithful zero inside = refl
  paginated_list-cursor_at faithful (suc n) inside =
      let within : suc n < length items = ground arith in
      let below : leb (length items) (suc n) ≡ false = ground arith in
      rw
        (
          faithful.no_meta,
          faithful.is_text (suc n) within,
          faithful.read_back (suc n) within,
          eq_refl method,
          below,
        )
        refl

  follow-cursor_at :
      IsFaithful
      → 0 < page_size
      → (fuel offset : ℕ) → (offset ≡ 0) ⊎ (offset < length items)
      → length items < offset + fuel
      → follow fuel (cursor_at offset) ≡ ok (drop offset items)
  unfolding follow
  follow-cursor_at faithful positive zero offset inside enough = absurd (ground arith)
  follow-cursor_at faithful positive (suc fuel) offset inside enough =
      elim (Bool-cases (ltb (offset + page_size) (length items))) [
        | inl more ↦
            let next = offset + page_size in
            let rest : follow fuel (some (encode (cursor_json method next)))
                ≡ ok (drop next items) =
              ap (follow fuel) (sym (cursor_at-pos next (omega (arith, positive))))
              ∙ follow-cursor_at faithful positive fuel next (inr (ground (arith, more)))
                  (omega (arith, enough, positive)) in
            rw (paginated_list-cursor_at faithful offset inside, more, rest)
              (ap (λ xs. ok xs) (page-rest offset page_size items))
        | inr last ↦
            rw (paginated_list-cursor_at faithful offset inside, last)
              (ap (λ xs. ok xs) (page-last offset page_size items (ground (arith, last))))
      ]

  -- If the page size is not 0, a client that asks for the first page and follows the cursors gets
  -- the whole list, every item once and in order, in at most one request for each item and one
  -- more. This asks that the cursors of the list's offsets are written in the pattern and read back as
  -- they were written, and that a request without `_meta` has no error there.
  pub follow_all :
      IsFaithful → 0 < page_size → (fuel : ℕ) → length items < fuel → follow fuel none ≡ ok items
  follow_all faithful positive fuel enough =
      follow-cursor_at faithful positive fuel 0 (inl refl) (omega (arith, enough))

-- ===== src/Discovery/Pages.antt =====
-- The paged listings of lib/src/policy/discovery.ts and lib/src/access/access-rpc.ts.
use web_sdk.Base.{
  ℕ, zero, suc, ◌+◌, ◌-◌, ◌*◌, ◌<◌, ◌≡◌, refl, sym, ap, ◌∙◌, Bool, true, false, List, [], ◌∷◌, ◌++◌,
  Option, some, ok, err, Error, length, take, drop, slice, leb, ltb, ◌==◌, if◌then◌else◌, arith,
  Bool-cases, inl, inr, take_all,
}
use web_sdk.Discovery.{
  Page, pages_loop, list_attributes, servers_loop, list_attributes_page_size, check,
}

module _ {ℓ} {A : Type ℓ} where
  -- The page at an offset of a listing of `all`, at most `limit` long.
  abbrev pub page : List A → ℕ → ℕ → Page A
  page all limit offset = record {
    items = slice all offset (offset + limit);
    next_offset = if ltb (offset + limit) (length all) then offset + limit else 0;
  }

  take_nil : (n : ℕ) → take {A = A} n [] ≡ []
  take_nil zero = refl
  take_nil (suc n) = refl

  take-slice :
      (offset limit : ℕ) (all : List A)
      → take offset all ++ slice all offset (offset + limit) ≡ take (offset + limit) all
  take-slice zero limit all =
      let same : 0 + limit - 0 ≡ 0 + limit = omega arith in ap (λ n. take n all) same
  take-slice (suc offset) limit [] =
      take_nil (suc offset + limit - suc offset) ∙ sym (take_nil (suc offset + limit))
  take-slice (suc offset) limit (x ∷ all) =
      let size : suc offset + limit - suc offset ≡ offset + limit - offset = omega arith in
      let whole : suc (offset + limit) ≡ suc offset + limit = omega arith in
      ap (λ n. x ∷ take offset all ++ take n (drop offset all)) size
      ∙ ap (λ r. x ∷ r) (take-slice offset limit all)
      ∙ ap (λ n. take n (x ∷ all)) whole

  module _ (all : List A) where
    -- What has been read after another page.
    read_on :
        (offset limit : ℕ) (result : List A)
        → result ≡ take offset all
        → result ++ (page all limit offset).items ≡ take (offset + limit) all
    read_on offset limit result e =
        ap (λ r. r ++ slice all offset (offset + limit)) e ∙ take-slice offset limit all

    -- The server answers with the pages of the listing.
    abbrev pub Lists : (ℕ → ℕ → Option (Page A)) → Type ℓ
    Lists list = (offset limit : ℕ) → list offset limit ≡ some (page all limit offset)

    module _ (list : ℕ → ℕ → Option (Page A)) (lists : Lists list) where
      pages_loop-Lists :
          (pages offset : ℕ) (result : List A)
          → result ≡ take offset all
          → offset < length all + pages
          → pages_loop list pages offset result ≡ (
              if leb (length all) (offset + pages * list_attributes_page_size)
              then ok all
              else err Error.configuration)
      unfolding pages_loop
      pages_loop-Lists zero offset result e h =
          let over : leb (length all) (offset + 0 * list_attributes_page_size) ≡ false =
            ground arith in
          rw over refl
      pages_loop-Lists (suc pages) offset result e h =
          elim (Bool-cases (ltb (offset + list_attributes_page_size) (length all))) [
            | inl more ↦
                let next =
                  pages_loop-Lists pages (offset + list_attributes_page_size)
                    (result ++ (page all list_attributes_page_size offset).items)
                    (read_on offset list_attributes_page_size result e) (ground arith) in
                let nonzero : (offset + list_attributes_page_size == 0) ≡ false = ground arith in
                let same : offset + list_attributes_page_size + pages * list_attributes_page_size
                    ≡ offset + suc pages * list_attributes_page_size =
                  omega arith in
                rw (lists offset list_attributes_page_size, more, nonzero)
                  (next
                    ∙ ap (λ n. if leb (length all) n then ok all else err Error.configuration) same)
            | inr last ↦
                let done : leb (length all) (offset + suc pages * list_attributes_page_size)
                    ≡ true =
                  ground arith in
                rw (lists offset list_attributes_page_size, last, done)
                  (ap ok (
                    read_on offset list_attributes_page_size result e
                    ∙ take_all (offset + list_attributes_page_size) all (ground arith)))
          ]

      -- Over a server that answers with the pages of a listing, `listAttributes` returns the whole listing, in order, if
      -- it has at most 10000 entries, and is a configuration error if it has more; a URL that is not secure is one too.
      pub list_attributes-all :
          (secure : Bool)
          → list_attributes secure list ≡ (
              if secure
              then (if leb (length all) 10_000 then ok all else err Error.configuration)
              else err Error.configuration)
      unfolding list_attributes check
      list_attributes-all false = refl
      list_attributes-all true = pages_loop-Lists 10 0 [] refl (omega arith)

    module _ (limit : ℕ) (positive : 0 < limit) (list : ℕ → Option (Page A))
        (lists : (offset : ℕ) → list offset ≡ some (page all limit offset)) where
      -- Over a server that answers with pages of a positive length, the loop of `fetchKeyAccessServers` returns the
      -- whole listing, in order; as many rounds as entries, and one, are enough.
      pub servers_loop-all :
          (fuel offset : ℕ) (result : List A)
          → result ≡ take offset all
          → length all < offset + fuel
          → 0 < fuel
          → servers_loop list fuel offset result ≡ some (ok all)
      unfolding servers_loop
      servers_loop-all zero offset result e h k = absurd (omega arith)
      servers_loop-all (suc fuel) offset result e h k =
          elim (Bool-cases (ltb (offset + limit) (length all))) [
            | inl more ↦
                let nonzero : ltb 0 (offset + limit) ≡ true = ground arith in
                rw (lists offset, servers_loop)
                  (rw (more, nonzero)
                    (servers_loop-all fuel (offset + limit)
                      (result ++ (page all limit offset).items) (read_on offset limit result e)
                      (ground arith) (ground arith)))
            | inr last ↦
                rw (lists offset, servers_loop)
                  (rw last (
                    ap (λ r. some (ok r))
                      (read_on offset limit result e
                        ∙ take_all (offset + limit) all (ground arith))))
          ]

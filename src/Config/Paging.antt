-- ===== src/Config/Paging.antt =====
-- internal/config/config.go: what `search` returns from a device that pages through its entries.
use encedo_wg_hsm.Common.{
  codes, ℕ, zero, suc, ◌+◌, ◌≤◌, ◌<◌, ◌≡◌, refl, sym, ap, ◌∙◌, true, false, ◌||◌, ◌⊎◌, inl, inr,
  List, [], ◌∷◌, ◌++◌, append_assoc, Bytes, length, length-append, take, drop, is_empty, leb,
  take-append-drop, drop-length_append, length-drop, ok, err, Bool-cases, arith,
}
use encedo_wg_hsm.Hem.{Hem, HemError, KeyEntry, is_auth_error}
use encedo_wg_hsm.Config.Records.{search_page, TokenFunc}
use encedo_wg_hsm.Config.Search.{search_loop, search}

-- With this token the device answers a search by its matching entries: how many there are, and
-- those from the offset on, a page at most.
abbrev pub Answers : Hem → Bytes → Bytes → List KeyEntry → Type 0
Answers hem token magic es =
    (offset : ℕ)
    → hem.search_keys token magic offset search_page
      ≡ ok (length es, take search_page (drop offset es))

take-length_le {ℓ} :
    {A : Type ℓ} (n : ℕ) (xs : List A) → length xs ≤ length (take n xs) → take n xs ≡ xs
take-length_le zero [] h = refl
take-length_le zero (x ∷ xs) h = absurd (omega arith)
take-length_le (suc n) [] h = refl
take-length_le (suc n) (x ∷ xs) h = ap (◌∷◌ x) (take-length_le n xs (omega arith))

module _ (hem : Hem) (tok : TokenFunc) (token magic : Bytes) (es : List KeyEntry) where
  search_loop-pages :
      (fuel : ℕ) (front rest : List KeyEntry)
      → Answers hem token magic es
      → length rest < fuel
      → es ≡ front ++ rest
      → search_loop fuel hem tok token magic (length front) front ≡ ok es
  unfolding search_loop
  search_loop-pages zero front rest a h e = absurd (omega arith)
  search_loop-pages (suc fuel) front rest a h e =
      let page : take search_page (drop (length front) es) ≡ take search_page rest =
        ap (λ (ys : List KeyEntry). take search_page (drop (length front) ys)) e
        ∙ ap (take search_page) (drop-length_append front rest) in
      let found : hem.search_keys token magic (length front) search_page
          ≡ ok (length es, take search_page rest) =
        a (length front) ∙ ap (λ (ys : List KeyEntry). ok (length es, ys)) page in
      let whole : (front ++ take search_page rest) ++ drop search_page rest ≡ es =
        append_assoc front (take search_page rest) (drop search_page rest)
        ∙ ap (◌++◌ front) (take-append-drop search_page rest)
        ∙ sym e in
      let total : length es ≡ length front + length rest = ap length e ∙ length-append front rest in
      elim (Bool-cases (
        is_empty (take search_page rest)
        || leb (length es) (length front + length (take search_page rest)))) [
          | inl last ↦
              let all : length rest ≤ length (take search_page rest) = last_page rest last total in
              rw (found, search_loop)
                (rw last (ap ok (ap (◌++◌ front) (take-length_le search_page rest all) ∙ sym e)))
          | inr more ↦
              let next : search_loop fuel hem tok token magic
                    (length (front ++ take search_page rest)) (front ++ take search_page rest)
                  ≡ ok es =
                search_loop-pages fuel (front ++ take search_page rest) (drop search_page rest) a
                  (shorter rest h more) (sym whole) in
              let length' = length-append front (take search_page rest) in
              rw (found, search_loop) (rw more (rw length' at next))
        ]
    where
      last_page :
          (rest : List KeyEntry)
          → (is_empty (take search_page rest)
              || leb (length es) (length front + length (take search_page rest)))
            ≡ true
          → length es ≡ length front + length rest
          → length rest ≤ length (take search_page rest)
      last_page [] l t = omega arith
      last_page (x ∷ xs) l t = ground arith

      shorter :
          (rest : List KeyEntry)
          → length rest < suc fuel
          → (is_empty (take search_page rest)
              || leb (length es) (length front + length (take search_page rest)))
            ≡ false
          → length (drop search_page rest) < fuel
      shorter [] l m = cc
      shorter (x ∷ xs) l m = omega (arith, length-drop search_page (x ∷ xs))

-- `search` returns every matching entry, once and in the device's order, and ends within as many
-- calls as there are entries and two more: from a device that answers without a token, and from one
-- that refuses the first call as unauthorised and answers with the token that is asked for then.
pub search_complete :
    (hem : Hem) (tok : TokenFunc) (magic : Bytes) (es : List KeyEntry)
    → Answers hem [] magic es
      ⊎ ((e : HemError) × (token : Bytes) × (is_auth_error e ≡ true)
          × (hem.search_keys [] magic 0 search_page ≡ err e)
          × (tok (codes "keymgmt:search") ≡ ok token)
          × Answers hem token magic es)
    → search (suc (suc (length es))) hem tok magic ≡ ok es
unfolding search search_loop
search_complete hem tok magic es (inl anonymous) =
    search_loop-pages hem tok [] magic es (suc (suc (length es))) [] es anonymous (omega arith) refl
search_complete hem tok magic es (inr (e, token, auth, refused, granted, answers)) =
    rw (refused, search_loop)
      (rw auth (
        rw granted (
          search_loop-pages hem tok token magic es (suc (length es)) [] es answers (omega arith)
            refl)))

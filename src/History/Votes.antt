-- ===== src/History/Votes.antt =====
-- Polls: what a vote may hold, and how votes are counted.
use wppconnect_server_go.Prelude.{
  ℕ, ◌≤◌, String, ◌≡◌, refl, sym, ap, subst, ◌∙◌, ◌⊎◌, inl, inr, true, false, Option, none, some,
  List, [], ◌∷◌, ◌++◌, map, arith, str_eq, eq_iff, Result-cases, ok, Faults, All, All-append, In,
  Bool-cases, ◌==◌, length,
}
use wppconnect_server_go.Table.{exists}
use wppconnect_server_go.History.{Row, Store, Outside, Poll, v1, v2, v3, v5, v6, is_row, cutoff}
use wppconnect_server_go.History.Reads.{get}
use wppconnect_server_go.History.Steps.{get_ok}
use wppconnect_server_go.History.Polls.{
  text_in, first_poll, supported, poll_choices, key_of, is_known, select_hashes, valid_vote,
  checked_vote,
}

-- No text stands twice.
abbrev pub NoRepeat : List String → Type 0
NoRepeat [] = Unit
NoRepeat (k ∷ ks) = (text_in k ks ≡ false) × NoRepeat ks

module _ (out : Outside) where
  append-NoRepeat :
      (k : String) (ks : List String) → text_in k ks ≡ false → NoRepeat ks → NoRepeat (ks ++ k ∷ [])
  append-NoRepeat k [] h n = (refl, tt)
  append-NoRepeat k (j ∷ ks) h n = (
    absent j ks n.0 (ground (arith, h, eq_iff k j, eq_iff j k)),
    append-NoRepeat k ks (ground (arith, h)) n.1,
  )
    where
      absent :
          (j : String) (ks : List String)
          → text_in j ks ≡ false
          → str_eq j k ≡ false
          → text_in j (ks ++ k ∷ []) ≡ false
      absent j [] a b = rw b
      absent j (i ∷ ks) a b = ground (arith, absent j ks)

  -- What the loop over the hashes returns.
  select_hashes_lem :
      (choices selected : List String) (hashes : List (List ℕ)) (result : List String)
      → select_hashes out choices selected hashes ≡ ok result
      → All (λ k. is_known out choices k ≡ true) selected
      → NoRepeat selected
      → (result ≡ selected ++ map out.hex hashes)
        × All (λ k. is_known out choices k ≡ true) result
        × NoRepeat result
  unfolding select_hashes
  select_hashes_lem choices selected [] result h a n =
      let same : selected ≡ result = ground arith in
      (
        sym same ∙ sym (append_nil selected),
        subst (All (λ k. is_known out choices k ≡ true)) same a,
        subst NoRepeat same n,
      )
    where
      append_nil : (xs : List String) → xs ++ [] ≡ xs
      append_nil [] = refl
      append_nil (x ∷ xs) = ap (◌∷◌ x) (append_nil xs)
  select_hashes_lem choices selected (x ∷ hashes) result h a n =
      let k = out.hex x in
      let r =
        select_hashes_lem choices (selected ++ k ∷ []) hashes result (ground arith)
          (All-append (λ j. is_known out choices j ≡ true) selected (k ∷ []) a (ground arith, tt))
          (append-NoRepeat k selected (ground arith) n) in
      (r.0 ∙ assoc selected k (map out.hex hashes), r.1, r.2)
    where
      assoc :
          (xs : List String) (k : String) (ys : List String) → (xs ++ k ∷ []) ++ ys ≡ xs ++ k ∷ ys
      assoc [] k ys = refl
      assoc (x ∷ xs) k ys = ap (◌∷◌ x) (assoc xs k ys)

  length-map : (hs : List (List ℕ)) → length (map out.hex hs) ≡ length hs
  length-map [] = refl
  length-map (h ∷ hs) = ground (arith, length-map hs)

  supported_bounds :
      (o : Option Poll) (p : Poll)
      → supported out o ≡ ok p
      → (2 ≤ length p.options) × (length p.options ≤ 12)
  supported_bounds none p h = absurd (ground (arith, h))
  supported_bounds (some q) p h =
      let same : q ≡ p = ground arith in
      subst (λ (x : Poll). (2 ≤ length x.options) × (length x.options ≤ 12)) same
        (at_least_two, at_most_twelve)
    where
      at_least_two : 2 ≤ length q.options
      at_least_two = ground arith

      at_most_twelve : length q.options ≤ 12
      at_most_twelve = ground arith

  -- A vote that is accepted belongs to a stored message of its chat and identifier that is within
  -- retention, is not deleted and holds a poll, the first of its versions in the stored protocol
  -- message. That poll has 2 to 12 options; the choices are the given hashes in their order, each the
  -- hash of an option of this poll, none twice, and no more than it lets a voter select.
  pub checked_vote_lem :
      (fails : Faults) (now : ℕ) (chat poll voter : String) (at : ℕ) (hashes : List (List ℕ))
      (s : Store) (selected : List String)
      → checked_vote out fails now chat poll voter at hashes s ≡ ok selected
      → (r : Row) × (p : Poll) × In r s.rows
        × (is_row chat poll r ≡ true)
        × (cutoff now s ≤ r.t)
        × (r.deleted ≡ false)
        × (first_poll out (v1 ∷ v2 ∷ v3 ∷ v5 ∷ v6 ∷ []) r.protocol ≡ some p)
        × (2 ≤ length p.options)
        × (length p.options ≤ 12)
        × (selected ≡ map out.hex hashes)
        × All (λ k. exists (λ c. str_eq (key_of out c) k) p.options ≡ true) selected
        × NoRepeat selected
        × ((p.selectable ≡ 0) ⊎ (length selected ≤ p.selectable))
  unfolding poll_choices
  checked_vote_lem fails now chat poll voter at hashes s selected h =
      elim (Result-cases (get out fails 0 now chat poll s)) [
        | inr (e, q) ↦ absurd (ground (arith, q))
        | inl (r, q) ↦ elim (Result-cases (poll_choices out r)) [
          | inr (e, c) ↦ absurd (ground (arith, q, c))
          | inl (p, c) ↦
              let (there, key, young) = get_ok out fails 0 now chat poll s r q in
              let chosen : select_hashes out p.options [] hashes ≡ ok selected =
                ground (arith, q, c) in
              let good : valid_vote out now p voter at hashes ≡ true = ground (arith, q, c) in
              let k = select_hashes_lem p.options [] hashes selected chosen tt tt in
              let live : r.deleted ≡ false = ground (arith, c) in
              let (low, high) =
                supported_bounds (first_poll out (v1 ∷ v2 ∷ v3 ∷ v5 ∷ v6 ∷ []) r.protocol) p
                  (opened r p live c) in
              (
                r,
                p,
                there,
                key,
                young,
                live,
                held (first_poll out (v1 ∷ v2 ∷ v3 ∷ v5 ∷ v6 ∷ []) r.protocol) p
                    (opened r p live c),
                low,
                high,
                k.0,
                k.1,
                k.2,
                few p (ap (λ (x : List String). length x) k.0 ∙ length-map hashes) good,
              )
        ]
      ]
    where
      opened :
          (r : Row) (p : Poll)
          → r.deleted ≡ false
          → poll_choices out r ≡ ok p
          → supported out (first_poll out (v1 ∷ v2 ∷ v3 ∷ v5 ∷ v6 ∷ []) r.protocol) ≡ ok p
      opened r p l c = ground (arith, l, c)

      held : (o : Option Poll) (p : Poll) → supported out o ≡ ok p → o ≡ some p
      held none p h = absurd (ground (arith, h))
      held (some q) p h = ground (arith, h)

      few :
          (p : Poll)
          → length selected ≡ length hashes
          → valid_vote out now p voter at hashes ≡ true
          → (p.selectable ≡ 0) ⊎ (length selected ≤ p.selectable)
      few p e g = elim (Bool-cases (p.selectable == 0)) [
        | inl z ↦ inl (ground arith)
        | inr z ↦ inr (ground (arith, g, e))
      ]

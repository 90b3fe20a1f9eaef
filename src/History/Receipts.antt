-- ===== src/History/Receipts.antt =====
-- Receipts that arrive out of order.
use wppconnect_server_go.Prelude.{
  ℕ, String, max, ◌≡◌, refl, ap, ◌∙◌, inl, inr, Bool, true, false, List, [], ◌∷◌, ◌++◌, arith,
  eq_refl, Bool-cases,
}
use wppconnect_server_go.Table.{update, exists}
use wppconnect_server_go.History.{Receipt, Store, has_row}
use wppconnect_server_go.History.Edits.{
  ReceiptEvent, is_receipt, later, new_receipt, upsert_receipt,
}

abbrev pub at_time : ReceiptEvent → ℕ → ReceiptEvent
at_time e t = record e { time = t }

max_assoc : (x a b : ℕ) → max (max x a) b ≡ max x (max a b)
max_assoc x a b = omega arith

update_twice :
    (p : Receipt → Bool) (a b : ℕ)
    → ((t : ℕ) (x : Receipt) → p (later t x) ≡ p x)
    → (rows : List Receipt)
    → update p (later b) (update p (later a) rows) ≡ update p (later (max a b)) rows
update_twice p a b k [] = refl
update_twice p a b k (x ∷ rows) = elim (Bool-cases (p x)) [
  | inr e ↦ rw (e, e) (ap (λ r. x ∷ r) (update_twice p a b k rows))
  | inl e ↦
      rw (e, k a x, e, max_assoc x.t a b)
        (ap (λ r. record x { t = max x.t (max a b) } ∷ r) (update_twice p a b k rows))
]

exists-update :
    (p : Receipt → Bool) (a : ℕ)
    → ((t : ℕ) (x : Receipt) → p (later t x) ≡ p x)
    → (rows : List Receipt) → exists p (update p (later a) rows) ≡ exists p rows
exists-update p a k [] = refl
exists-update p a k (x ∷ rows) = ground (arith, k a x, exists-update p a k rows)

exists-append :
    (p : Receipt → Bool) (x : Receipt) (rows : List Receipt)
    → p x ≡ true
    → exists p (rows ++ x ∷ []) ≡ true
exists-append p x [] h = rw h
exists-append p x (y ∷ rows) h = ground (arith, exists-append p x rows h)

update-append :
    (p : Receipt → Bool) (a : ℕ) (x : Receipt) (rows : List Receipt)
    → exists p rows ≡ false
    → p x ≡ true
    → update p (later a) (rows ++ x ∷ []) ≡ rows ++ later a x ∷ []
update-append p a x [] h q = rw q
update-append p a x (y ∷ rows) h q = ground (arith, update-append p a x rows)

upsert_receipt_twice :
    (e : ReceiptEvent) (id : String) (a b : ℕ) (s : Store)
    → upsert_receipt (at_time e b) id (upsert_receipt (at_time e a) id s)
      ≡ upsert_receipt (at_time e (max a b)) id s
unfolding upsert_receipt
upsert_receipt_twice e id a b s =
    let p = is_receipt e id in
    elim (Bool-cases (has_row s.rows e.chat id)) [
      | inr h ↦ rw (h, h) refl
      | inl h ↦ elim (Bool-cases (exists p s.receipts)) [
        | inl x ↦
            let ka = exists-update p a (λ t y. refl) s.receipts ∙ x in
            rw (h, x, h, ka)
              (ap (λ r. record s { receipts = r }) (update_twice p a b (λ t y. refl) s.receipts))
        | inr x ↦
            let na = new_receipt (at_time e a) id in
            let self : p na ≡ true =
              ground (arith, eq_refl e.chat, eq_refl id, eq_refl e.sender, eq_refl e.kind) in
            let ka = exists-append p na s.receipts self in
            let ua = update-append p b na s.receipts x self in rw (h, x, h, ka, ua) refl
      ]
    ]

-- Two receipts of the same message, sender and kind leave, in either order of their arrival, the
-- store that one receipt with the later of their two times leaves.
pub receipts_commute :
    (e : ReceiptEvent) (id : String) (a b : ℕ) (s : Store)
    → (upsert_receipt (at_time e b) id (upsert_receipt (at_time e a) id s)
        ≡ upsert_receipt (at_time e (max a b)) id s)
      × (upsert_receipt (at_time e a) id (upsert_receipt (at_time e b) id s)
          ≡ upsert_receipt (at_time e (max a b)) id s)
receipts_commute e id a b s = (
  upsert_receipt_twice e id a b s,
  upsert_receipt_twice e id b a s ∙ ap (λ t. upsert_receipt (at_time e t) id s) (max_comm b a),
)
  where
    max_comm : (a b : ℕ) → max a b ≡ max b a
    max_comm a b = omega arith

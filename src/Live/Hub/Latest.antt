-- ===== src/Live/Hub/Latest.antt =====
-- `_offer` on a bounded queue, against the last of the messages.
use mathlib.Core.List.{append-nil, append_assoc}
use switch_ops.Prelude.{
  ℕ, zero, suc, ◌+◌, ◌-◌, ◌≤◌, ◌<◌, ◌≡◌, refl, sym, ap, ◌∙◌, Bool, true, false, List, [], ◌∷◌, ◌++◌,
  arith, leb, length, length-append, drop,
}
use switch_ops.Live.Hub.{full, drop_oldest, put_nowait, offer, offer_all}

module _ {M : Type 0} where
  -- The last `n` of a list of messages.
  abbrev pub latest : ℕ → List M → List M
  latest n ms = drop (length ms - n) ms

  length-drop : (n : ℕ) (ms : List M) → length (drop n ms) ≡ length ms - n
  length-drop zero ms = omega arith
  length-drop (suc n) [] = omega arith
  length-drop (suc n) (m ∷ ms) = let h = length-drop n ms in omega (arith, h)

  drop-append :
      (n : ℕ) (ms : List M) (m : M) → n ≤ length ms → drop n (ms ++ m ∷ []) ≡ drop n ms ++ m ∷ []
  drop-append zero ms m h = refl
  drop-append (suc n) [] m h = absurd (omega (arith, h))
  drop-append (suc n) (x ∷ ms) m h = drop-append n ms m (omega (arith, h))

  drop_oldest-drop : (n : ℕ) (ms : List M) → drop_oldest (drop n ms) ≡ drop (suc n) ms
  unfolding drop_oldest
  drop_oldest-drop zero [] = refl
  drop_oldest-drop zero (m ∷ ms) = refl
  drop_oldest-drop (suc n) [] = refl
  drop_oldest-drop (suc n) (m ∷ ms) = drop_oldest-drop n ms

  offer-full :
      (n : ℕ) (items : List M) (m : M)
      → 0 < n
      → length items ≡ n
      → offer m (record { maxsize = n; items = items })
        ≡ record { maxsize = n; items = drop_oldest items ++ m ∷ [] }
  unfolding offer put_nowait full drop_oldest
  offer-full n [] m h e = absurd (omega (arith, h, e))
  offer-full n (x ∷ items) m h e = ground (arith, h, e)

  offer-free :
      (n : ℕ) (items : List M) (m : M)
      → length items < n
      → offer m (record { maxsize = n; items = items })
        ≡ record { maxsize = n; items = items ++ m ∷ [] }
  unfolding offer put_nowait full
  offer-free n items m h = ground (arith, h)

  drop-nil : (n : ℕ) → drop {A = M} n [] ≡ []
  drop-nil zero = refl
  drop-nil (suc n) = refl

  -- One more message.
  offer-latest :
      (n : ℕ) (ms : List M) (m : M)
      → 0 < n
      → offer m (record { maxsize = n; items = latest n ms })
        ≡ record { maxsize = n; items = latest n (ms ++ m ∷ []) }
  offer-latest n ms m h = by_room (leb n (length ms)) refl
    where
      more : length (ms ++ m ∷ []) ≡ length ms + 1
      more = length-append ms (m ∷ [])

      by_room :
          (b : Bool)
          → leb n (length ms) ≡ b
          → offer m (record { maxsize = n; items = latest n ms })
            ≡ record { maxsize = n; items = latest n (ms ++ m ∷ []) }
      by_room true e =
          let enough : n ≤ length ms = ground (arith, e) in
          let size : length (latest n ms) ≡ n =
            length-drop (length ms - n) ms ∙ omega (arith, enough) in
          let one_more : length (ms ++ m ∷ []) - n ≡ suc (length ms - n) =
            omega (arith, more, enough) in
          offer-full n (latest n ms) m h size
          ∙ ap (λ l. record { maxsize = n; items = l })
              (ap (λ l. l ++ m ∷ []) (drop_oldest-drop (length ms - n) ms)
                ∙ sym (drop-append (suc (length ms - n)) ms m (omega (arith, h, enough)))
                ∙ ap (λ k. drop k (ms ++ m ∷ [])) (sym one_more))
      by_room false e =
          let room : length ms < n = ground (arith, e) in
          let none_old : length ms - n ≡ 0 = omega (arith, room) in
          let none_new : length (ms ++ m ∷ []) - n ≡ 0 = omega (arith, more, room) in
          ap (λ k. offer m (record { maxsize = n; items = drop k ms })) none_old
          ∙ offer-free n ms m room
          ∙ ap (λ k. record { maxsize = n; items = drop k (ms ++ m ∷ []) }) (sym none_new)

  offer_all-from :
      (n : ℕ) (old ms : List M)
      → 0 < n
      → offer_all ms (record { maxsize = n; items = latest n old })
        ≡ record { maxsize = n; items = latest n (old ++ ms) }
  unfolding offer_all
  offer_all-from n old [] h =
      ap (λ l. record { maxsize = n; items = latest n l }) (sym (append-nil old))
  offer_all-from n old (m ∷ ms) h =
      ap (λ q. offer_all ms q) (offer-latest n old m h)
      ∙ offer_all-from n (old ++ m ∷ []) ms h
      ∙ ap (λ l. record { maxsize = n; items = latest n l }) (append_assoc old (m ∷ []) ms)

  -- A client that reads nothing for a while finds exactly the latest messages, as many as its queue
  -- holds, in the order in which they were published: the oldest are the ones that are dropped.
  pub offer_all-latest :
      (n : ℕ) (ms : List M)
      → 0 < n
      → offer_all ms (record { maxsize = n; items = [] })
        ≡ record { maxsize = n; items = latest n ms }
  offer_all-latest n ms h =
      ap (λ l. offer_all ms (record { maxsize = n; items = l }))
        (sym (drop-nil (length {A = M} [] - n)))
      ∙ offer_all-from n [] ms h

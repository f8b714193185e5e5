-- ===== src/Codec/ClientId/Any.antt =====
-- ServerRequestBase::parseClientId (client/ServerRequest.cpp) on a text of any kind: std::stoi throws,
-- or 16 bytes are written.
use instant_messaging_progra.Base.{
  ℕ, zero, suc, ◌+◌, ◌*◌, ◌≤◌, ◌≡◌, refl, sym, ap, ◌∙◌, [], ◌∷◌, ◌++◌, arith, append_assoc,
  append-nil, Bytes, length, length-append, Result, ok, throw, stuck, Exception, ◌>>=◌, ◌⊎◌, inl,
  inr, substr, stoi, ltb, Bool-cases, to_uchar, store, store-pad, pad, ℤ, Yields, >>=-Yields,
}
use instant_messaging_progra.Common.{client_id_byte_size}
use instant_messaging_progra.Codec.ClientId.{id_loop, parse_client_id}

-- The bytes that the loop writes, without the buffer.
id_value : ℕ → ℕ → Bytes → Result Bytes
id_value zero i id = ok []
id_value (suc rounds) i id = do
  num ← substr id (i * 2) 2
  value ← stoi 16 num
  rest ← id_value rounds (suc i) id
  ok (to_uchar value ∷ rest)

-- The loop is the value of the id, put behind what is in the buffer.
id_loop-id_value :
    (rounds i offset room : ℕ) (id front : Bytes)
    → offset + i ≡ length front
    → length front + rounds ≤ room
    → id_loop rounds i offset id (pad room front)
      ≡ (id_value rounds i id >>= λ value. ok (pad room (front ++ value)))
unfolding id_loop id_value
id_loop-id_value zero i offset room id front at fits =
    ap (λ z. ok (pad room z)) (sym (append-nil front))
id_loop-id_value (suc rounds) i offset room id front at fits = read (substr id (i * 2) 2) λ value.
    id_loop-id_value rounds (suc i) offset room id (front ++ (to_uchar value ∷ []))
      (omega (arith, length-append front (to_uchar value ∷ [])))
      (omega (arith, length-append front (to_uchar value ∷ [])))
  where
    Later : Type 0
    Later =
        (value : ℤ)
        → id_loop rounds (suc i) offset id (pad room (front ++ (to_uchar value ∷ []))) ≡ (
            id_value rounds (suc i) id >>= λ rest.
            ok (pad room ((front ++ (to_uchar value ∷ [])) ++ rest)))

    regroup :
        (value : ℤ) (r : Result Bytes)
        → (r >>= λ rest. ok (pad room ((front ++ (to_uchar value ∷ [])) ++ rest)))
          ≡ ((r >>= λ rest. ok (to_uchar value ∷ rest)) >>= λ rest. ok (pad room (front ++ rest)))
    regroup value (ok rest) =
        ap (λ z. ok (pad room z)) (append_assoc front (to_uchar value ∷ []) rest)
    regroup value (throw e) = refl
    regroup value (stuck f) = refl

    convert :
        (r : Result ℤ) (later : Later)
        → (r >>= λ value. store (to_uchar value) (offset + i) (pad room front) >>= λ b.
            id_loop rounds (suc i) offset id b)
          ≡ ((r >>= λ value. id_value rounds (suc i) id >>= λ rest. ok (to_uchar value ∷ rest))
              >>= λ value. ok (pad room (front ++ value)))
    convert (ok value) later =
        rw (store-pad room (offset + i) (to_uchar value) front at (omega arith))
          (later value ∙ regroup value (id_value rounds (suc i) id))
    convert (throw e) later = refl
    convert (stuck f) later = refl

    read :
        (r : Result Bytes) (later : Later)
        → (r >>= λ num. stoi 16 num >>= λ value.
            store (to_uchar value) (offset + i) (pad room front) >>= λ b.
            id_loop rounds (suc i) offset id b)
          ≡ ((r >>= λ num. stoi 16 num >>= λ value.
                id_value rounds (suc i) id >>= λ rest. ok (to_uchar value ∷ rest))
              >>= λ value. ok (pad room (front ++ value)))
    read (ok num) later = convert (stoi 16 num) later
    read (throw e) later = refl
    read (stuck f) later = refl

substr-Yields : (s : Bytes) (pos n : ℕ) → Yields (λ part. Unit {0}) (substr s pos n)
unfolding substr
substr-Yields s pos n = elim (Bool-cases (ltb (length s) pos)) [ inl e ↦ rw e tt | inr e ↦ rw e tt ]

stoi-Yields : (base : ℕ) (s : Bytes) → Yields (λ number. Unit {0}) (stoi base s)
unfolding stoi
stoi-Yields base s = ground arith

-- The value has as many bytes as there are rounds.
id_value-Yields :
    (rounds i : ℕ) (id : Bytes) → Yields (λ value. length value ≡ rounds) (id_value rounds i id)
unfolding id_value
id_value-Yields zero i id = refl
id_value-Yields (suc rounds) i id =
    >>=-Yields (λ part. Unit {0}) _ _ _ (substr-Yields id (i * 2) 2)
      λ num _.
        >>=-Yields (λ number. Unit {0}) _ _ _ (stoi-Yields 16 num)
          λ value _.
            >>=-Yields (λ rest. length rest ≡ rounds) _ _ _ (id_value-Yields rounds (suc i) id)
              λ rest size. ap suc size

-- What parseClientId does with this id at the end of what is written, wherever there is room.
abbrev pub Puts : Bytes → (ℕ → Bytes → Result Bytes) → Type 0
Puts id result =
    (offset room : ℕ) (front : Bytes)
    → offset ≡ length front
    → length front + client_id_byte_size ≤ room
    → parse_client_id offset id (pad room front) ≡ result room front

by_value :
    (id : Bytes) (r : Result Bytes)
    → id_value 16 0 id ≡ r
    → Puts id (λ room front. r >>= λ value. ok (pad room (front ++ value)))
unfolding parse_client_id
by_value id r e offset room front at fits =
    id_loop-id_value 16 0 offset room id front (omega arith) fits
    ∙ ap (λ m. m >>= λ value. ok (pad room (front ++ value))) e

pub parse_client_id-cases :
    (id : Bytes)
    → ((value : Bytes) × (length value ≡ 16)
        × Puts id (λ room front. ok (pad room (front ++ value))))
      ⊎ ((e : Exception) × Puts id (λ room front. throw e))
parse_client_id-cases id = cases (id_value 16 0 id) refl (id_value-Yields 16 0 id)
  where
    cases :
        (r : Result Bytes)
        → id_value 16 0 id ≡ r
        → Yields (λ value. length value ≡ 16) r
        → ((value : Bytes) × (length value ≡ 16)
            × Puts id (λ room front. ok (pad room (front ++ value))))
          ⊎ ((e : Exception) × Puts id (λ room front. throw e))
    cases (ok value) e size = inl (value, size, by_value id (ok value) e)
    cases (throw x) e size = inr (x, by_value id (throw x) e)
    cases (stuck f) e size = absurd size

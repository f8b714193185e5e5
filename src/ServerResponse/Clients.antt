-- ===== src/ServerResponse/Clients.antt =====
-- ListClientsSuccessResponse::parseDataList (client/ServerResponse.cpp) on a payload of clients.
use instant_messaging_progra.Base.{
  ℕ, zero, suc, ◌+◌, ◌-◌, ◌*◌, ◌≤◌, ◌≡◌, refl, sym, ap, ◌∙◌, List, [], ◌∷◌, ◌++◌, map, append_assoc,
  append-nil, arith, Bytes, length, length-append, replicate, length-replicate, ok, range,
  range-append, All, ◌==◌, false,
}
use instant_messaging_progra.Codec.ClientId.{get_client_id_from_buffer, hex_id}
use instant_messaging_progra.Codec.ClientId.Read.{get_client_id-append}
use instant_messaging_progra.ServerResponse.{ClientDataFromServer, client_loop, c_str}

-- A client as the server lists it: the name is followed by zeros up to 255 bytes.
pub record Listed : Type 0 where
  pub id : Bytes
  pub name : Bytes

pub record IsListed (c : Listed) : Type 0 where
  pub id_size : length c.id ≡ 16
  pub name_size : length c.name ≤ 255
  pub name_text : All (λ b. (b == 0) ≡ false) c.name

abbrev pub name_field : Bytes → Bytes
name_field name = name ++ replicate (255 - length name) 0

unfoldable pub listed_bytes : List Listed → Bytes
listed_bytes [] = []
listed_bytes (c ∷ cs) = c.id ++ (name_field c.name ++ listed_bytes cs)

abbrev pub as_listed : Listed → ClientDataFromServer
as_listed c = record { client_id = hex_id c.id; client_name = c.name }

c_str-zeros : (n : ℕ) → c_str (replicate n 0) ≡ []
unfolding c_str
c_str-zeros zero = refl
c_str-zeros (suc n) = refl

c_str-name :
    (name : Bytes) (n : ℕ) → All (λ b. (b == 0) ≡ false) name → c_str (name ++ replicate n 0) ≡ name
unfolding c_str
c_str-name [] n h = c_str-zeros n
c_str-name (zero ∷ name) n (h, hs) = ground arith
c_str-name (suc b ∷ name) n (h, hs) = ap (λ z. suc b ∷ z) (c_str-name name n hs)

length-name_field : (name : Bytes) → length name ≤ 255 → length (name_field name) ≡ 255
length-name_field name h = omega (
  arith,
  length-append name (replicate (255 - length name) 0),
  length-replicate {A = ℕ} (255 - length name) 0,
)

pub length-listed_bytes :
    (cs : List Listed) → All IsListed cs → length (listed_bytes cs) ≡ 271 * length cs
unfolding listed_bytes
length-listed_bytes [] wf = omega arith
length-listed_bytes (c ∷ cs) (wf, wfs) = omega (
  arith,
  length-append {0},
  length-name_field c.name wf.name_size,
  wf.id_size,
  length-listed_bytes cs wfs,
)

client_loop-listed :
    (cs : List Listed) (pre : Bytes) (i : ℕ) (found : List ClientDataFromServer)
    → All IsListed cs
    → i * 271 ≡ length pre
    → client_loop (length cs) i (pre ++ listed_bytes cs) found ≡ ok (found ++ map as_listed cs)
unfolding client_loop listed_bytes
client_loop-listed [] pre i found wf at = ap ok (sym (append-nil found))
client_loop-listed (c ∷ cs) pre i found (wf, wfs) at =
    let rest = listed_bytes cs in
    let field = name_field c.name in
    let long = length-name_field c.name wf.name_size in
    let read_id : get_client_id_from_buffer (pre ++ (c.id ++ (field ++ rest))) (i * 271)
        ≡ ok (hex_id c.id) =
      get_client_id-append (i * 271) pre c.id (field ++ rest) at wf.id_size in
    let read_name : range (pre ++ (c.id ++ (field ++ rest))) (i * 271 + 16) 255 ≡ ok field =
      ap (λ b. range b (i * 271 + 16) 255) (sym (append_assoc pre c.id (field ++ rest)))
      ∙ range-append (pre ++ c.id) field rest (i * 271 + 16) 255
          (omega (arith, length-append pre c.id, wf.id_size)) (sym long) in
    let regroup : pre ++ (c.id ++ (field ++ rest)) ≡ (pre ++ (c.id ++ field)) ++ rest =
      simp (append_assoc) in
    rw (read_id, read_name, c_str-name c.name (255 - length c.name) wf.name_text)
      (ap (λ b. client_loop (length cs) (suc i) b (found ++ (as_listed c ∷ []))) regroup
        ∙ client_loop-listed cs (pre ++ (c.id ++ field)) (suc i) (found ++ (as_listed c ∷ [])) wfs
            (omega (arith, length-append pre (c.id ++ field), length-append c.id field, wf.id_size))
        ∙ ap ok (append_assoc found (as_listed c ∷ []) (map as_listed cs)))

-- On a payload that consists of clients, each an id of 16 bytes and a name of at most 255 bytes
-- without a zero, filled up with zeros, ListClientsSuccessResponse::parseDataList gives those
-- clients in order: the id as hexadecimal text and the name alone.
pub client_loop-listed_bytes :
    (cs : List Listed)
    → All IsListed cs
    → client_loop (length cs) 0 (listed_bytes cs) [] ≡ ok (map as_listed cs)
client_loop-listed_bytes cs wf = client_loop-listed cs [] 0 [] wf refl

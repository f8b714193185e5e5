-- ===== src/ClientInMemoryDataManager/Consistency.antt =====
-- The two maps of ClientInMemoryDataManager agree, and stay so.
use instant_messaging_progra.Base.{
  Bytes, List, [], ◌∷◌, none, some, ok, if◌then◌else◌, ◌≡◌, refl, ap, ◌∙◌, arith, subst, >>=-eq-ok,
  ok-injective, str_eq, str_eq_iff, Option-cases, Bool-cases, ◌⊎◌, inl, inr,
}
use instant_messaging_progra.Base.StdMap.{
  StdMap, find, insert, modify, find-insert, find-modify, or_else,
}
use instant_messaging_progra.ServerResponse.{ClientDataFromServer}
use instant_messaging_progra.ClientInMemoryDataManager.{
  ClientData, new_client_data, DataManager, new_data_manager, get_client_data, insert_client,
  insert_clients_data, add_public_key, add_symmetric_key, with_public_key, with_symmetric_key,
}

-- A user name leads to the id of a client of that name, an entry stands under its own id, and the
-- name of every client leads to some client.
pub record IsConsistent (m : DataManager) : Type 0 where
  pub named :
      (name id : Bytes)
      → find name m.user_name_to_client_id ≡ some id
      → (d : ClientData) × (find id m.client_id_to_client_data ≡ some d) × (d.user_name ≡ name)
  pub keyed :
      (id : Bytes) (d : ClientData) → find id m.client_id_to_client_data ≡ some d → d.client_id ≡ id
  pub listed :
      (id : Bytes) (d : ClientData)
      → find id m.client_id_to_client_data ≡ some d
      → (id' : Bytes) × (find d.user_name m.user_name_to_client_id ≡ some id')

pub new_data_manager-IsConsistent : IsConsistent new_data_manager
unfolding find
new_data_manager-IsConsistent = record {
  named = λ name id h. absurd (cc);
  keyed = λ id d h. cc;
  listed = λ id d h. absurd (cc);
}

-- A round of insertClientsData where the id is new.
module _ (c : ClientDataFromServer) (m : DataManager) (h : IsConsistent m)
    (new : find c.client_id m.client_id_to_client_data ≡ none) where
  clients : StdMap ClientData
  clients =
      insert c.client_id (new_client_data c.client_name c.client_id) m.client_id_to_client_data

  names : StdMap Bytes
  names = insert c.client_name c.client_id m.user_name_to_client_id

  find-clients :
      (id : Bytes)
      → find id clients ≡ (
          if str_eq c.client_id id
          then some (new_client_data c.client_name c.client_id)
          else find id m.client_id_to_client_data)
  unfolding clients
  find-clients id = find-insert c.client_id id _ m.client_id_to_client_data ∙ rw new

  find-names :
      (name : Bytes)
      → find name names ≡ (
          if str_eq c.client_name name
          then some (or_else (find c.client_name m.user_name_to_client_id) c.client_id)
          else find name m.user_name_to_client_id)
  unfolding names
  find-names name = find-insert c.client_name name c.client_id m.user_name_to_client_id

  old_client :
      (id : Bytes) (d : ClientData)
      → find id m.client_id_to_client_data ≡ some d
      → find id clients ≡ some d
  old_client id d e = find-clients id ∙ ground (arith, str_eq_iff c.client_id id, new)

  named' :
      (name id : Bytes)
      → find name names ≡ some id
      → (d : ClientData) × (find id clients ≡ some d) × (d.user_name ≡ name)
  named' name id e = elim (Bool-cases (str_eq c.client_name name)) [
    | inl same ↦ elim (Option-cases (find c.client_name m.user_name_to_client_id)) [
      | inl free ↦ (
        new_client_data c.client_name c.client_id,
        ground (arith, find-clients id, find-names name, str_eq_iff c.client_id id),
        (str_eq_iff c.client_name name).0 same,
      )
      | inr (w, taken) ↦
          let (d, at, called) = h.named c.client_name w taken in
          (
            d,
            old_client id d (ground (arith, find-names name, at)),
            called ∙ (str_eq_iff c.client_name name).0 same,
          )
    ]
    | inr other ↦
        let (d, at, called) = h.named name id (ground (arith, find-names name)) in
        (d, old_client id d at, called)
  ]

  keyed' : (id : Bytes) (d : ClientData) → find id clients ≡ some d → d.client_id ≡ id
  keyed' id d e = ground (arith, find-clients id, str_eq_iff c.client_id id, h.keyed id d)

  listed' :
      (id : Bytes) (d : ClientData)
      → find id clients ≡ some d
      → (id' : Bytes) × (find d.user_name names ≡ some id')
  listed' id d e = elim (Bool-cases (str_eq c.client_id id)) [
    | inl same ↦
        let named_new : d.user_name ≡ c.client_name = ground (arith, find-clients id) in
        (
          or_else (find c.client_name m.user_name_to_client_id) c.client_id,
          ap (λ n. find n names) named_new
              ∙ ground (arith, find-names c.client_name, str_eq_iff c.client_name c.client_name),
        )
    | inr other ↦
        let (w, at) = h.listed id d (ground (arith, find-clients id)) in
        elim (Bool-cases (str_eq c.client_name d.user_name)) [
          | inl clash ↦ (
            or_else (find c.client_name m.user_name_to_client_id) c.client_id,
            ground (arith, find-names d.user_name),
          )
          | inr apart ↦ (w, ground (arith, find-names d.user_name))
        ]
  ]

  insert_new-IsConsistent :
      IsConsistent (record m { client_id_to_client_data = clients; user_name_to_client_id = names })
  insert_new-IsConsistent = record { named = named'; keyed = keyed'; listed = listed' }

insert_client-IsConsistent :
    (c : ClientDataFromServer) (m : DataManager) → IsConsistent m → IsConsistent (insert_client c m)
unfolding insert_client
insert_client-IsConsistent c m h =
    elim (Option-cases (find c.client_id m.client_id_to_client_data)) [
      | inl new ↦
          rw (new, insert_client) (unfold clients names in insert_new-IsConsistent c m h new)
      | inr (d, old) ↦ rw (old, insert_client) h
    ]

-- insertClientsData keeps the two maps in agreement, for every list of clients, with repeated ids
-- and names too.
pub insert_clients_data-IsConsistent :
    (cs : List ClientDataFromServer) (m : DataManager)
    → IsConsistent m
    → IsConsistent (insert_clients_data cs m)
unfolding insert_clients_data
insert_clients_data-IsConsistent [] m h = h
insert_clients_data-IsConsistent (c ∷ cs) m h =
    insert_clients_data-IsConsistent cs (insert_client c m) (insert_client-IsConsistent c m h)

-- A change of the objects that keeps names and ids.
module _ (id : Bytes) (f : ClientData → ClientData) (m : StdMap ClientData)
    (same_name : (d : ClientData) → (f d).user_name ≡ d.user_name)
    (same_id : (d : ClientData) → (f d).client_id ≡ d.client_id) where
  modified :
      (k : Bytes) (d : ClientData)
      → find k m ≡ some d
      → (d' : ClientData) × (find k (modify id f m) ≡ some d') × (d'.user_name ≡ d.user_name)
  modified k d e = elim (Bool-cases (str_eq id k)) [
    | inl same ↦ (f d, find-modify id k f m ∙ rw (same, e), same_name d)
    | inr other ↦ (d, find-modify id k f m ∙ rw (other, e), refl)
  ]

  origin :
      (k : Bytes) (d : ClientData)
      → find k (modify id f m) ≡ some d
      → (d₀ : ClientData) × (find k m ≡ some d₀)
        × (d.user_name ≡ d₀.user_name)
        × (d.client_id ≡ d₀.client_id)
  origin k d e = elim (Option-cases (find k m)) [
    | inl missing ↦ absurd (ground (arith, find-modify id k f m))
    | inr (d₀, at) ↦ elim (Bool-cases (str_eq id k)) [
      | inl same ↦
          let changed : d ≡ f d₀ = ground (arith, find-modify id k f m) in
          (
            d₀,
            at,
            ap (λ x. x.user_name) changed ∙ same_name d₀,
            ap (λ x. x.client_id) changed ∙ same_id d₀,
          )
      | inr other ↦
          let kept : d ≡ d₀ = ground (arith, find-modify id k f m) in
          (d₀, at, ap (λ x. x.user_name) kept, ap (λ x. x.client_id) kept)
    ]
  ]

modify-IsConsistent :
    (id : Bytes) (f : ClientData → ClientData) (m : DataManager)
    → ((d : ClientData) → (f d).user_name ≡ d.user_name)
    → ((d : ClientData) → (f d).client_id ≡ d.client_id)
    → IsConsistent m
    → IsConsistent (record m { client_id_to_client_data = modify id f m.client_id_to_client_data })
modify-IsConsistent id f m same_name same_id h = record {
  named = λ name k e.
      let (d, at, called) = h.named name k e in
      let (d', at', called') = modified id f m.client_id_to_client_data same_name same_id k d at in
      (d', at', called' ∙ called);
  keyed = λ k d e.
      let (d₀, at, _, same) = origin id f m.client_id_to_client_data same_name same_id k d e in
      same ∙ h.keyed k d₀ at;
  listed = λ k d e.
      let (d₀, at, same, _) = origin id f m.client_id_to_client_data same_name same_id k d e in
      let (k', at') = h.listed k d₀ at in
      (k', ap (λ n. find n m.user_name_to_client_id) same ∙ at');
}

-- addPublicKey and addSymmetricKey, where they succeed, keep the two maps in agreement.
pub add_keys-IsConsistent :
    (m m' : DataManager) (id key : Bytes)
    → IsConsistent m
    → (add_public_key id key m ≡ ok m') ⊎ (add_symmetric_key id key m ≡ ok m')
    → IsConsistent m'
unfolding add_public_key add_symmetric_key
add_keys-IsConsistent m m' id key h (inl e) =
    let (d, _, e') = >>=-eq-ok (get_client_data id m) _ e in
    subst IsConsistent (ok-injective _ _ e')
      (modify-IsConsistent id (with_public_key key) m (λ d. refl) (λ d. refl) h)
add_keys-IsConsistent m m' id key h (inr e) =
    let (d, _, e') = >>=-eq-ok (get_client_data id m) _ e in
    subst IsConsistent (ok-injective _ _ e')
      (modify-IsConsistent id (with_symmetric_key key) m (λ d. refl) (λ d. refl) h)

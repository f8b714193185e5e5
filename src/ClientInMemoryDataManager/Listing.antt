-- ===== src/ClientInMemoryDataManager/Listing.antt =====
-- insertClientsData (client/ClientInMemoryDataManager.cpp) against a lookup in the list of clients.
use instant_messaging_progra.Base.{
  Bytes, List, [], ◌∷◌, Option, none, some, if◌then◌else◌, ◌≡◌, refl, ◌∙◌, arith, str_eq,
  str_eq_iff, str_eq_refl, Option-cases, inl, inr, All,
}
use instant_messaging_progra.Base.StdMap.{find, find-insert}
use instant_messaging_progra.ServerResponse.{ClientDataFromServer}
use instant_messaging_progra.ClientInMemoryDataManager.{
  ClientData, new_client_data, DataManager, insert_client, insert_clients_data,
}

-- The first client of the list that has the id.
unfoldable pub first_listed : Bytes → List ClientDataFromServer → Option ClientData
first_listed id [] = none
first_listed id (c ∷ cs) =
    if str_eq c.client_id id
    then some (new_client_data c.client_name c.client_id)
    else first_listed id cs

abbrev pub otherwise : Option ClientData → Option ClientData → Option ClientData
otherwise (some d) o = some d
otherwise none o = o

find-insert_client :
    (c : ClientDataFromServer) (m : DataManager) (id : Bytes) (o : Option ClientData)
    → otherwise (find id (insert_client c m).client_id_to_client_data) o
      ≡ otherwise
          (find id m.client_id_to_client_data)
          (if str_eq c.client_id id then some (new_client_data c.client_name c.client_id) else o)
unfolding insert_client
find-insert_client c m id o = ground (
  arith,
  find-insert c.client_id id (new_client_data c.client_name c.client_id) m.client_id_to_client_data,
  str_eq_iff c.client_id id,
)

-- After insertClientsData of any list, the entry of any id is the one that was there before, and
-- where there was none, a new one of the first listed client with this id, or none if no listed
-- client has it.
pub find-insert_clients_data :
    (cs : List ClientDataFromServer) (m : DataManager) (id : Bytes)
    → find id (insert_clients_data cs m).client_id_to_client_data
      ≡ otherwise (find id m.client_id_to_client_data) (first_listed id cs)
unfolding insert_clients_data first_listed
find-insert_clients_data [] m id = ground arith
find-insert_clients_data (c ∷ cs) m id =
    find-insert_clients_data cs (insert_client c m) id
    ∙ find-insert_client c m id (first_listed id cs)

-- The id of the client has an entry.
abbrev IsKnown : DataManager → ClientDataFromServer → Type 0
IsKnown m c = (d : ClientData) × (find c.client_id m.client_id_to_client_data ≡ some d)

insert_client-known :
    (c : ClientDataFromServer) (m : DataManager) → IsKnown m c → insert_client c m ≡ m
unfolding insert_client
insert_client-known c m (d, at) = rw (at, insert_client) refl

insert_clients_data-known :
    (cs : List ClientDataFromServer) (m : DataManager)
    → All (IsKnown m) cs
    → insert_clients_data cs m ≡ m
unfolding insert_clients_data
insert_clients_data-known [] m h = refl
insert_clients_data-known (c ∷ cs) m (h, hs) =
    rw (insert_client-known c m h) (insert_clients_data-known cs m hs)

IsKnown-insert_client :
    (c e : ClientDataFromServer) (m : DataManager) → IsKnown m e → IsKnown (insert_client c m) e
unfolding insert_clients_data first_listed
IsKnown-insert_client c e m (d, at) =
    (d, find-insert_clients_data (c ∷ []) m e.client_id ∙ rw at refl)

IsKnown-self : (c : ClientDataFromServer) (m : DataManager) → IsKnown (insert_client c m) c
unfolding insert_clients_data first_listed
IsKnown-self c m = elim (Option-cases (find c.client_id m.client_id_to_client_data)) [
  | inl new ↦ (
    new_client_data c.client_name c.client_id,
    find-insert_clients_data (c ∷ []) m c.client_id ∙ rw (new, str_eq_refl c.client_id) refl,
  )
  | inr (d, old) ↦ (d, find-insert_clients_data (c ∷ []) m c.client_id ∙ rw old refl)
]

IsKnown-insert_clients_data :
    (cs : List ClientDataFromServer) (e : ClientDataFromServer) (m : DataManager)
    → IsKnown m e
    → IsKnown (insert_clients_data cs m) e
unfolding insert_clients_data
IsKnown-insert_clients_data [] e m h = h
IsKnown-insert_clients_data (c ∷ cs) e m h =
    IsKnown-insert_clients_data cs e (insert_client c m) (IsKnown-insert_client c e m h)

insert_clients_data-IsKnown :
    (cs : List ClientDataFromServer) (m : DataManager) → All (IsKnown (insert_clients_data cs m)) cs
unfolding insert_clients_data
insert_clients_data-IsKnown [] m = tt
insert_clients_data-IsKnown (c ∷ cs) m = (
  IsKnown-insert_clients_data cs c (insert_client c m) (IsKnown-self c m),
  insert_clients_data-IsKnown cs (insert_client c m),
)

-- insertClientsData of a list a second time changes nothing.
insert_clients_data-insert_clients_data :
    (cs : List ClientDataFromServer) (m : DataManager)
    → insert_clients_data cs (insert_clients_data cs m) ≡ insert_clients_data cs m
insert_clients_data-insert_clients_data cs m =
    insert_clients_data-known cs (insert_clients_data cs m) (insert_clients_data-IsKnown cs m)

-- ===== src/Tests/Clients.antt =====
-- The data manager (client/ClientInMemoryDataManager.cpp) at concrete clients.
use instant_messaging_progra.Base.{
  ◌≡◌, refl, [], ◌∷◌, Bytes, some, ok, true, str_eq, is_empty, if◌then◌else◌, inr,
}
use instant_messaging_progra.Base.StdMap.{find, insert, modify}
use instant_messaging_progra.ServerResponse.{ClientDataFromServer}
use instant_messaging_progra.ClientInMemoryDataManager.{
  ClientData, new_client_data, DataManager, new_data_manager, get_client_data,
  get_client_symmetric_key, insert_client, insert_clients_data, add_symmetric_key,
}
use instant_messaging_progra.ClientInMemoryDataManager.Consistency.{
  IsConsistent, new_data_manager-IsConsistent, insert_clients_data-IsConsistent,
  add_keys-IsConsistent,
}
use instant_messaging_progra.ClientInMemoryDataManager.Lookup.{
  get_client_symmetric_key-add_symmetric_key,
}
use instant_messaging_progra.ClientInMemoryDataManager.Listing.{
  first_listed, find-insert_clients_data,
}

abbrev bob : ClientDataFromServer
bob = record { client_id = 2 ∷ []; client_name = 98 ∷ [] }

abbrev eve : ClientDataFromServer
eve = record { client_id = 3 ∷ []; client_name = 101 ∷ [] }

insert_clients_data-IsConsistent_example :
    IsConsistent (insert_clients_data (bob ∷ eve ∷ bob ∷ []) new_data_manager)
insert_clients_data-IsConsistent_example =
    insert_clients_data-IsConsistent (bob ∷ eve ∷ bob ∷ []) new_data_manager
      new_data_manager-IsConsistent

-- A manager that knows bob.
abbrev pub bob_data : ClientData
bob_data = new_client_data (98 ∷ []) (2 ∷ [])

abbrev pub with_bob : ClientData → DataManager
with_bob d = record new_data_manager {
  user_name_to_client_id = (98 ∷ [], 2 ∷ []) ∷ [];
  client_id_to_client_data = (2 ∷ [], d) ∷ [];
}

with_bob-IsConsistent : IsConsistent (with_bob bob_data)
unfolding insert_clients_data insert_client find insert
with_bob-IsConsistent =
    insert_clients_data-IsConsistent (bob ∷ []) new_data_manager new_data_manager-IsConsistent

abbrev key : Bytes
key = 5 ∷ []

abbrev keyed_bob : ClientData
keyed_bob = record bob_data { symmetric_key = key }

added : add_symmetric_key (2 ∷ []) key (with_bob bob_data) ≡ ok (with_bob keyed_bob)
unfolding add_symmetric_key get_client_data find modify str_eq
added = refl

add_keys-IsConsistent_example : IsConsistent (with_bob keyed_bob)
add_keys-IsConsistent_example =
    add_keys-IsConsistent (with_bob bob_data) (with_bob keyed_bob) (2 ∷ []) key
      with_bob-IsConsistent (inr added)

get_client_symmetric_key-add_symmetric_key_example :
    get_client_symmetric_key (2 ∷ []) true (with_bob keyed_bob) ≡ (
      if str_eq (2 ∷ []) (2 ∷ [])
      then ok key
      else get_client_symmetric_key (2 ∷ []) true (with_bob bob_data))
get_client_symmetric_key-add_symmetric_key_example =
    get_client_symmetric_key-add_symmetric_key (with_bob bob_data) (with_bob keyed_bob) (2 ∷ [])
      (2 ∷ []) key (unfold is_empty in refl) added

find-insert_clients_data_example :
    find (2 ∷ []) (insert_clients_data (eve ∷ bob ∷ []) new_data_manager).client_id_to_client_data
    ≡ some bob_data
unfolding find first_listed str_eq
find-insert_clients_data_example =
    find-insert_clients_data (eve ∷ bob ∷ []) new_data_manager (2 ∷ [])

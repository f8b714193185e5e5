-- ===== src/ClientInMemoryDataManager.antt =====
-- client/ClientInMemoryDataManager.h and .cpp, behind client/IClientDataManager.h: what the client
-- knows of itself and of the other clients. The map owns each ClientData and nothing else points to
-- one between two calls, so an entry holds the object itself.
pub mod Consistency
pub mod Lookup
pub mod Listing
use instant_messaging_progra.Base.{
  Bytes, List, [], ◌∷◌, Bool, true, false, ◌&&◌, Option, none, some, Result, ok, throw, exception,
  ◌>>=◌, is_empty, if◌then◌else◌,
}
use instant_messaging_progra.Base.StdMap.{StdMap, find, insert, modify}
use instant_messaging_progra.ServerResponse.{ClientDataFromServer}

pub record ClientData : Type 0 where
  pub public_key : Bytes
  pub symmetric_key : Bytes
  pub user_name : Bytes
  pub client_id : Bytes

abbrev pub new_client_data : Bytes → Bytes → ClientData
new_client_data user_name client_id = record {
  public_key = [];
  symmetric_key = [];
  user_name = user_name;
  client_id = client_id;
}

pub record DataManager : Type 0 where
  pub private_key : Bytes
  pub client_id : Bytes
  pub user_name : Bytes
  pub user_name_to_client_id : StdMap Bytes
  pub client_id_to_client_data : StdMap ClientData

abbrev pub new_data_manager : DataManager
new_data_manager = record {
  private_key = [];
  client_id = [];
  user_name = [];
  user_name_to_client_id = [];
  client_id_to_client_data = [];
}

unfoldable pub get_private_key : DataManager → Result Bytes
get_private_key m =
    if is_empty m.private_key
    then throw (exception "no private key for client")
    else ok m.private_key

unfoldable pub get_client_id : DataManager → Result Bytes
get_client_id m =
    if is_empty m.client_id then throw (exception "no client id for client") else ok m.client_id

-- The message names the client id here too.
unfoldable pub get_user_name : DataManager → Result Bytes
get_user_name m =
    if is_empty m.user_name then throw (exception "no client id for client") else ok m.user_name

unfoldable pub set_private_key : Bytes → DataManager → DataManager
set_private_key key m = record m { private_key = key }

unfoldable pub set_client_id : Bytes → DataManager → DataManager
set_client_id id m = record m { client_id = id }

unfoldable pub set_user_name : Bytes → DataManager → DataManager
set_user_name name m = record m { user_name = name }

unfoldable pub get_client_data : Bytes → DataManager → Result ClientData
get_client_data id m = elim (find id m.client_id_to_client_data) [
  | none ↦ throw (exception "client wasn't found\n")
  | some d ↦ ok d
]

unfoldable pub get_client_public_key : Bytes → DataManager → Result Bytes
get_client_public_key id m = do
  d ← get_client_data id m
  if is_empty d.public_key then throw (exception "no public key for client") else ok d.public_key

-- `throwOnNonExist` is the second argument.
unfoldable pub get_client_symmetric_key : Bytes → Bool → DataManager → Result Bytes
get_client_symmetric_key id throw_on_non_exist m = do
  d ← get_client_data id m
  if throw_on_non_exist && is_empty d.symmetric_key
      then throw (exception "no symmetric key for client\n")
      else ok d.symmetric_key

unfoldable pub get_client_client_id : Bytes → DataManager → Result Bytes
get_client_client_id name m = elim (find name m.user_name_to_client_id) [
  | none ↦ throw (exception "client id wasn't found\n")
  | some id ↦ ok id
]

unfoldable pub get_client_user_name : Bytes → DataManager → Result Bytes
get_client_user_name id m = do d ← get_client_data id m; ok d.user_name

-- One round of the loop of insertClientsData.
unfoldable pub insert_client : ClientDataFromServer → DataManager → DataManager
insert_client c m = elim (find c.client_id m.client_id_to_client_data) [
  | none ↦ record m {
    client_id_to_client_data =
        insert c.client_id (new_client_data c.client_name c.client_id) m.client_id_to_client_data;
    user_name_to_client_id = insert c.client_name c.client_id m.user_name_to_client_id;
  }
  | some d ↦ m
]

unfoldable pub insert_clients_data : List ClientDataFromServer → DataManager → DataManager
unfolding insert_client
insert_clients_data [] m = m
insert_clients_data (c ∷ cs) m = insert_clients_data cs (insert_client c m)

abbrev pub with_public_key : Bytes → ClientData → ClientData
with_public_key key d = record d { public_key = key }

abbrev pub with_symmetric_key : Bytes → ClientData → ClientData
with_symmetric_key key d = record d { symmetric_key = key }

unfoldable pub add_public_key : Bytes → Bytes → DataManager → Result DataManager
add_public_key id key m = do
  d ← get_client_data id m
  ok (record m {
    client_id_to_client_data = modify id (with_public_key key) m.client_id_to_client_data;
  })

unfoldable pub add_symmetric_key : Bytes → Bytes → DataManager → Result DataManager
add_symmetric_key id key m = do
  d ← get_client_data id m
  ok (record m {
    client_id_to_client_data = modify id (with_symmetric_key key) m.client_id_to_client_data;
  })

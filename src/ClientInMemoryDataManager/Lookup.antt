-- ===== src/ClientInMemoryDataManager/Lookup.antt =====
-- What the getters of ClientInMemoryDataManager return after the operations that change it.
use instant_messaging_progra.Base.{
  Bytes, true, false, ok, is_empty, if◌then◌else◌, ◌≡◌, ap, arith, str_eq, str_eq_iff,
}
use instant_messaging_progra.Base.StdMap.{find-modify}
use instant_messaging_progra.ClientInMemoryDataManager.{
  DataManager, get_client_data, get_client_client_id, get_client_user_name,
  get_client_symmetric_key, get_client_public_key, add_public_key, add_symmetric_key,
  with_public_key, with_symmetric_key,
}
use instant_messaging_progra.ClientInMemoryDataManager.Consistency.{IsConsistent}

-- In a data manager whose maps agree, the id that a user name leads to leads back to that user
-- name.
get_client_user_name-get_client_client_id :
    (m : DataManager) (name id : Bytes)
    → IsConsistent m
    → get_client_client_id name m ≡ ok id
    → get_client_user_name id m ≡ ok name
unfolding get_client_client_id get_client_user_name get_client_data
get_client_user_name-get_client_client_id m name id h e =
    let (d, at, called) = h.named name id (ground arith) in
    rw (at, get_client_user_name, get_client_data) (ap ok called)

-- After addSymmetricKey of a key that is not empty has succeeded, getClientSymmetricKey gives this
-- key for this client, and for every other client what it gave before.
pub get_client_symmetric_key-add_symmetric_key :
    (m m' : DataManager) (id other key : Bytes)
    → is_empty key ≡ false
    → add_symmetric_key id key m ≡ ok m'
    → get_client_symmetric_key other true m'
      ≡ (if str_eq id other then ok key else get_client_symmetric_key other true m)
unfolding get_client_symmetric_key add_symmetric_key get_client_data
get_client_symmetric_key-add_symmetric_key m m' id other key some_key e = ground (
  arith,
  find-modify id other (with_symmetric_key key) m.client_id_to_client_data,
  str_eq_iff id other,
)

-- After addPublicKey of a key that is not empty has succeeded, getClientPublicKey gives this key
-- for this client, and for every other client what it gave before.
get_client_public_key-add_public_key :
    (m m' : DataManager) (id other key : Bytes)
    → is_empty key ≡ false
    → add_public_key id key m ≡ ok m'
    → get_client_public_key other m'
      ≡ (if str_eq id other then ok key else get_client_public_key other m)
unfolding get_client_public_key add_public_key get_client_data
get_client_public_key-add_public_key m m' id other key some_key e = ground (
  arith,
  find-modify id other (with_public_key key) m.client_id_to_client_data,
  str_eq_iff id other,
)

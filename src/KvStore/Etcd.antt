-- ===== src/KvStore/Etcd.antt =====
-- src/etha/kvstore/etcd.py: the operations of EtcdStore on an etcd client.
use etha.Prelude.{
  pair_eq, ◌≡◌, Bool, true, false, ◌&&◌, Option, none, some, List, [], ◌∷◌, ◌++◌, ◌==◌, nat_eq,
  list_eq, if◌then◌else◌,
}
use etha.Prelude.Sorting.{lex_order}
use etha.KvStore.{Text, KvNames, slash, prefixed}

-- Whether a text starts with another.
abbrev pub starts_with : Text → Text → Bool
starts_with [] k = true
starts_with (c ∷ p) [] = false
starts_with (c ∷ p) (d ∷ k) = c == d && starts_with p k

abbrev pub is_some : Option Text → Bool
is_some none = false
is_some (some v) = true

-- The calls of the client that are used, and what they rely on.
pub record EtcdBackend {ℓ} (S : Type ℓ) : Type ℓ where
  pub get : S → Text → Option Text
  pub put : S → Text → Text → S
  pub delete : S → Text → S × Bool
  pub delete_prefix : S → Text → S
  pub get_prefix : S → Text → List (Text × Text)
  pub get-put : (s : S) (k j v : Text) → get (put s k v) j ≡ (if j == k then some v else get s j)
  pub get-delete : (s : S) (k j : Text) → get (delete s k).0 j ≡ (if j == k then none else get s j)
  pub delete_found : (s : S) (k : Text) → (delete s k).1 ≡ is_some (get s k)
  pub get-delete_prefix :
      (s : S) (p j : Text) → get (delete_prefix s p) j ≡ (if starts_with p j then none else get s j)

-- A handle on the store: its names and the server's state.
pub record EtcdStore {ℓ} (S : Type ℓ) : Type ℓ where
  pub names : KvNames
  pub server : S

module _ {ℓ} {S : Type ℓ} (b : EtcdBackend S) where
  -- `cleanup` in the constructor, and in `close`.
  abbrev pub delete_namespace : KvNames → S → S
  delete_namespace names s = b.delete_prefix s (names.namespace ++ slash ∷ [])

  unfoldable pub connect : KvNames → Bool → S → EtcdStore S
  connect names cleanup s = record {
    names = names;
    server = if cleanup then delete_namespace names s else s;
  }

  unfoldable pub set : EtcdStore S → Text → Text → Option Text → EtcdStore S
  set s key value component = record s {
    server = b.put s.server (prefixed s.names key component) value;
  }

  unfoldable pub get : EtcdStore S → Text → Option Text → Option Text
  get s key component = b.get s.server (prefixed s.names key component)

  unfoldable pub exists : EtcdStore S → Text → Option Text → Bool
  unfolding get
  exists s key component = is_some (get s key component)

  unfoldable pub delete : EtcdStore S → Text → Option Text → EtcdStore S × Bool
  delete s key component =
      let (server, deleted) = b.delete s.server (prefixed s.names key component) in
      (record s { server = server }, deleted)

  unfoldable pub set_bytes : EtcdStore S → Text → Text → Option Text → EtcdStore S
  set_bytes s key bytes component = record s {
    server = b.put s.server (prefixed s.names key component) bytes;
  }

  unfoldable pub get_bytes : EtcdStore S → Text → Option Text → Option Text
  unfolding get
  get_bytes s key component = get s key component

  unfoldable pub close : EtcdStore S → Bool → EtcdStore S
  close s cleanup = if cleanup then record s { server = delete_namespace s.names s.server } else s

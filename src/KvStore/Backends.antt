-- ===== src/KvStore/Backends.antt =====
-- The two stores of src/etha/kvstore, tcp.py and etcd.py, hold the same values.
use etha.Prelude.{
  pair_eq, list_beq_iff, ◌≡◌, refl, ap, ◌∙◌, ◌≢◌, inl, inr, true, false, Option, none, some, List,
  [], ◌∷◌, arith, ◌==◌, nat_eq, list_eq, if◌then◌else◌, Bool-cases, All,
}
use etha.KvStore.{Text, KvNames, prefixed}
use etha.KvStore.Tcp
use etha.KvStore.Tcp.{TcpBackend, TcpStore}
use etha.KvStore.Etcd
use etha.KvStore.Etcd.{EtcdBackend, EtcdStore, is_some}

-- A change of a store.
pub data Change : Type 0 where
  set : Text → Text → Option Text → Change
  delete : Text → Option Text → Change

-- An empty value stands for a deleted key.
abbrev pub present : Option Text → Option Text
present none = none
present (some []) = none
present (some (c ∷ cs)) = some (c ∷ cs)

-- The values that are set are not empty.
abbrev pub IsProper : Change → Type 0
IsProper (set k v c) = v ≢ []
IsProper (delete k c) = Unit

present-some : (v : Text) → v ≢ [] → present (some v) ≡ some v
present-some [] h = absurd (h refl)
present-some (c ∷ cs) h = refl

module _ {ℓ κ} {S : Type ℓ} {T : Type κ} (b : TcpBackend S) (e : EtcdBackend T) where
  unfoldable pub run_tcp : List Change → TcpStore S → TcpStore S
  unfolding Tcp.set Tcp.delete
  run_tcp [] s = s
  run_tcp (set k v c ∷ cs) s = run_tcp cs (Tcp.set b s k v c)
  run_tcp (delete k c ∷ cs) s = run_tcp cs (Tcp.delete b s k c).0

  unfoldable pub run_etcd : List Change → EtcdStore T → EtcdStore T
  unfolding Etcd.set Etcd.delete
  run_etcd [] s = s
  run_etcd (set k v c ∷ cs) s = run_etcd cs (Etcd.set e s k v c)
  run_etcd (delete k c ∷ cs) s = run_etcd cs (Etcd.delete e s k c).0

  abbrev raw : S → Text → Option Text
  raw s k = if b.check s k then some (b.get s k) else none

  -- Handles with the same names on servers that show the same values.
  pub record Agree (s : TcpStore S) (t : EtcdStore T) : Type 0 where
    pub names : s.names ≡ t.names
    pub values : (k : Text) → present (raw s.server k) ≡ e.get t.server k

  raw-set : (s : S) (k j v : Text) → raw (b.set s k v) j ≡ (if j == k then some v else raw s j)
  raw-set s k j v = ground (arith, b.check-set s k j v, b.get-set s k j v)

  set-values :
      (s : S) (t : T) (k j v : Text)
      → v ≢ []
      → present (raw s j) ≡ e.get t j
      → present (raw (b.set s k v) j) ≡ e.get (e.put t k v) j
  set-values s t k j v h same = elim (Bool-cases (j == k)) [
    | inl own ↦ rw (raw-set s k j v, e.get-put t k j v, own) (present-some v h)
    | inr other ↦ rw (raw-set s k j v, e.get-put t k j v, other) same
  ]

  delete-values :
      (s : S) (t : T) (k j : Text)
      → ((i : Text) → present (raw s i) ≡ e.get t i)
      → present (raw (if b.check s k then b.set s k [] else s) j) ≡ e.get (e.delete t k).0 j
  delete-values s t k j same = elim (Bool-cases (b.check s k)) [
    | inl there ↦ elim (Bool-cases (j == k)) [
      | inl own ↦ rw (there, raw-set s k j [], e.get-delete t k j, own) refl
      | inr other ↦ rw (there, raw-set s k j [], e.get-delete t k j, other) (same j)
    ]
    | inr gone ↦ elim (Bool-cases (j == k)) [
      | inl own ↦
          let is : j ≡ k = (list_beq_iff j k).0 own in
          rw (gone, e.get-delete t k j, own, is, gone) refl
      | inr other ↦ rw (gone, e.get-delete t k j, other) (same j)
    ]
  ]

  set-Agree :
      (s : TcpStore S) (t : EtcdStore T) (k v : Text) (c : Option Text)
      → v ≢ []
      → Agree s t
      → Agree (Tcp.set b s k v c) (Etcd.set e t k v c)
  unfolding Tcp.set Etcd.set
  set-Agree s t k v c h a = record {
    names = a.names;
    values = λ j.
        rw (← a.names) (set-values s.server t.server (prefixed s.names k c) j v h (a.values j));
  }

  server-delete :
      (s : TcpStore S) (k : Text) (c : Option Text)
      → let p : Text = prefixed s.names k c in
        ((Tcp.delete b s k c).0.names ≡ s.names)
        × ((Tcp.delete b s k c).0.server
            ≡ (if b.check s.server p then b.set s.server p [] else s.server))
  unfolding Tcp.delete
  server-delete s k c = elim (Bool-cases (b.check s.server (prefixed s.names k c))) [
    | inl there ↦ rw there (refl, refl)
    | inr gone ↦ rw gone (refl, refl)
  ]

  delete-Agree :
      (s : TcpStore S) (t : EtcdStore T) (k : Text) (c : Option Text)
      → Agree s t
      → Agree (Tcp.delete b s k c).0 (Etcd.delete e t k c).0
  unfolding Etcd.delete
  delete-Agree s t k c a =
      let (names, server) = server-delete s k c in
      record {
        names = names ∙ a.names;
        values = λ j.
            rw (server, ← a.names)
              (delete-values s.server t.server (prefixed s.names k c) j a.values);
      }

  pub run-Agree :
      (cs : List Change) (s : TcpStore S) (t : EtcdStore T)
      → All IsProper cs
      → Agree s t
      → Agree (run_tcp cs s) (run_etcd cs t)
  unfolding run_tcp run_etcd
  run-Agree [] s t h a = a
  run-Agree (set k v c ∷ cs) s t h a =
      run-Agree cs (Tcp.set b s k v c) (Etcd.set e t k v c) h.1 (set-Agree s t k v c h.0 a)
  run-Agree (delete k c ∷ cs) s t h a =
      run-Agree cs (Tcp.delete b s k c).0 (Etcd.delete e t k c).0 h.1 (delete-Agree s t k c a)

  -- After any changes to stores that agree, with no empty value set, a `get` answers the same in both,
  -- if an empty answer of the TCP store is read as a missing key.
  pub get-run_tcp :
      (cs : List Change) (s : TcpStore S) (t : EtcdStore T)
      → All IsProper cs
      → Agree s t
      → (k : Text) (c : Option Text)
      → present (Tcp.get b (run_tcp cs s) k c) ≡ Etcd.get e (run_etcd cs t) k c
  unfolding Tcp.get Etcd.get
  get-run_tcp cs s t h a k c =
      let last = run-Agree cs s t h a in
      last.values (prefixed (run_tcp cs s).names k c)
      ∙ ap (λ (n : KvNames). e.get (run_etcd cs t).server (prefixed n k c)) last.names

  tcp_there :
      (s : TcpStore S) (k v : Text) (c : Option Text)
      → b.check s.server (prefixed s.names k c) ≡ true
      → b.get s.server (prefixed s.names k c) ≡ v
      → (Tcp.get b s k c ≡ some v) × (Tcp.exists b s k c ≡ true) × ((Tcp.delete b s k c).1 ≡ true)
  unfolding Tcp.get Tcp.exists Tcp.delete
  tcp_there s k v c h g = (rw (h, g) refl, h, rw h refl)

  tcp_deleted :
      (s : TcpStore S) (k : Text) (c : Option Text)
      → Tcp.exists b s k c ≡ true
      → let s' : TcpStore S = (Tcp.delete b s k c).0 in
        (Tcp.get b s' k c ≡ some [])
        × (Tcp.exists b s' k c ≡ true)
        × ((Tcp.delete b s' k c).1 ≡ true)
  unfolding Tcp.exists
  tcp_deleted s k c h =
      let (names, server) = server-delete s k c in
      let p : Text = prefixed s.names k c in
      let self : (p == p) ≡ true = (list_beq_iff p p).1 refl in
      tcp_there (Tcp.delete b s k c).0 k [] c
        (rw (names, server, h, b.check-set s.server p p [], self) refl)
        (rw (names, server, h, b.get-set s.server p p [], self) refl)

  etcd_deleted :
      (t : EtcdStore T) (k : Text) (c : Option Text)
      → let t' : EtcdStore T = (Etcd.delete e t k c).0 in
        (Etcd.get e t' k c ≡ none)
        × (Etcd.exists e t' k c ≡ false)
        × ((Etcd.delete e t' k c).1 ≡ false)
  unfolding Etcd.get Etcd.exists Etcd.delete
  etcd_deleted t k c =
      let p : Text = prefixed t.names k c in
      let self : (p == p) ≡ true = (list_beq_iff p p).1 refl in
      let gone : e.get (e.delete t.server p).0 p ≡ none =
        rw (e.get-delete t.server p p, self) refl in
      (gone, ap is_some gone, e.delete_found (e.delete t.server p).0 p ∙ ap is_some gone)

  -- Where they differ: a key that the TCP store deleted still exists, empty, and can be deleted again.
  pub delete_differs :
      (s : TcpStore S) (t : EtcdStore T) (k : Text) (c : Option Text)
      → Tcp.exists b s k c ≡ true
      → let s' : TcpStore S = (Tcp.delete b s k c).0 in
        let t' : EtcdStore T = (Etcd.delete e t k c).0 in
        (Tcp.get b s' k c ≡ some [])
        × (Tcp.exists b s' k c ≡ true)
        × ((Tcp.delete b s' k c).1 ≡ true)
        × (Etcd.get e t' k c ≡ none)
        × (Etcd.exists e t' k c ≡ false)
        × ((Etcd.delete e t' k c).1 ≡ false)
  delete_differs s t k c h =
      let (p, q, r) = tcp_deleted s k c h in
      let (p', q', r') = etcd_deleted t k c in (p, q, r, p', q', r')

-- ===== src/Resource/Servers/Own.antt =====
-- internal/core/core.go, stopNamedServer: which server it stops.
use game_forge.Prelude.{
  true, String, eq_iff, List, [], ◌∷◌, none, some, ◌≡◌, ◌⊎◌, inl, inr, refl, arith, In, Bool-cases,
  lookup,
}
use game_forge.Resource.{Resource, Files, Host, kind_server, records, remove, list}
use game_forge.Resource.Files.{In-records}
use game_forge.Resource.Housekeeping.{killed}
use game_forge.Resource.Servers.{
  owns_resource, is_own_server, Stopped, stop_first, stop_named_server,
}

-- A server's record in the directory, of the checkout with the key, or with no key and the project's id.
pub record IsOwn (name key id : String) (fs : Files) (r : Resource) : Type 0 where
  pub file : String
  pub registered : In (file, some r) fs
  pub server : r.kind ≡ kind_server
  pub owner : (r.project_key ≡ key) ⊎ ((r.project_key ≡ "") × (r.project ≡ id))
  pub matched : is_own_server name key id r ≡ true

-- Nothing is stopped and the directory stays; or one process is terminated, and its file removed.
Spares : Host → String → String → String → Files → Stopped → Type 0
Spares h name key id fs s =
    ((s.target ≡ none) × (s.acts ≡ []) × (s.files ≡ fs))
    ⊎ ((r : Resource) × IsOwn name key id fs r
        × (s.target ≡ some r)
        × (s.acts ≡ killed r.pid (lookup "pgid" r.metadata) ∷ [])
        × (s.files ≡ (remove h r.id fs).0)
        × (s.error ≡ (remove h r.id fs).1))

is_own_server-IsOwn :
    (name key id : String) (fs : Files) (n : String) (r : Resource)
    → In (n, some r) fs
    → is_own_server name key id r ≡ true
    → IsOwn name key id fs r
unfolding is_own_server owns_resource
is_own_server-IsOwn name key id fs n r i e = record {
  file = n;
  registered = i;
  server = ground (arith, eq_iff r.kind kind_server);
  owner = ground (arith, eq_iff r.project_key "", eq_iff r.project_key key, eq_iff r.project id);
  matched = e;
}

stop_first-Spares :
    (h : Host) (name key id : String) (rs : List Resource) (fs : Files)
    → ((r : Resource) → In r rs → (n : String) × In (n, some r) fs)
    → Spares h name key id fs (stop_first h name key id rs fs)
unfolding stop_first Spares
stop_first-Spares h name key id [] fs found = inl (refl, refl, refl)
stop_first-Spares h name key id (r ∷ rs) fs found =
    elim (Bool-cases (is_own_server name key id r)) [
      | inl e ↦
          let (n, i) = found r (inl refl) in
          rw (e) (inr (r, is_own_server-IsOwn name key id fs n r i e, refl, refl, refl, refl))
      | inr e ↦ rw (e) (stop_first-Spares h name key id rs fs (λ s i. found s (inr i)))
    ]

-- `stopNamedServer` stops nothing and leaves the directory alone, or it terminates the process of one
-- record: a server's with the requested name, of this checkout or, if the record has no key, of this
-- project's id, and removes the file of that record. Sorting adds no element to a list.
stop_named_server-Spares :
    (h : Host) (name key id : String) (fs : Files)
    → ((r : Resource) (rs : List Resource) → In r (h.arrange rs) → In r rs)
    → Spares h name key id fs (stop_named_server h name key id fs)
unfolding stop_named_server list Spares
stop_named_server-Spares h name key id fs arranged = elim (Bool-cases h.lists) [
  | inl e ↦
      rw (e, stop_named_server)
        (stop_first-Spares h name key id (h.arrange (records fs)) fs
          (λ r i. (In-records r fs).0 (arranged r (records fs) i)))
  | inr e ↦ rw (e, stop_named_server) (inl (refl, refl, refl))
]

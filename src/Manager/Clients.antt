-- ===== src/Manager/Clients.antt =====
-- php_phongo.c, `phongo_manager_init`: the clients that the process keeps.
use dotdeb_php_mongodb.Manager.Failures.{prepare_uri-Cleans, Cleans}
use dotdeb_php_mongodb.Prelude.{
  Bytes, bytes_eq, bytes_eq_refl, true, List, [], ◌∷◌, ◌++◌, none, some, ◌≡◌, refl, sym, Bool-cases,
  inl, inr, none≢some, Option-cases, ◌∙◌,
}
use dotdeb_php_mongodb.Errors.{Fault, is_pending}
use dotdeb_php_mongodb.Manager.{
  Initialised, find_client, keep_client, init_from_uri, init_new, manager_init, Option, Env, Table,
  options_to_bson, make_client_hash, false, make_client, make_ssl_options, ssl_faults,
}
use dotdeb_php_mongodb.Manager.Connection.{Library, Attempt, Uri, cleanup, going}

find_client-new :
    {C : Type 0} (cs : List (Bytes × C)) (hash : Bytes) (c : C)
    → find_client cs hash ≡ none
    → find_client (cs ++ (hash, c) ∷ []) hash ≡ some c
unfolding find_client
find_client-new [] hash c h = rw (bytes_eq_refl hash) refl
find_client-new (x ∷ cs) hash c h = elim (Bool-cases (bytes_eq x.0 hash)) [
  | inl e ↦ absurd (none≢some (sym (rw e at h)))
  | inr e ↦ rw e (find_client-new cs hash c (rw e at h))
]

-- What an initialisation does to the clients of the process: one with that hash is found there, and
-- was there or is new; or an exception has been thrown, and they are as they were.
pub data Kept {C : Type 0} (clients : List (Bytes × C)) (hash : Bytes)
    : Initialised C → Type 0 where
  found :
      (c : C)
      → find_client clients hash ≡ some c
      → Kept clients hash (record { clients = clients; client = some c; thrown = [] })
  added :
      (c : C)
      → find_client clients hash ≡ none
      → Kept clients hash
          (record { clients = clients ++ (hash, c) ∷ []; client = some c; thrown = [] })
  refused :
      (faults : List Fault)
      → is_pending faults ≡ true
      → Kept clients hash (record { clients = clients; client = none; thrown = faults })

keep_client-Kept :
    {C : Type 0} (clients : List (Bytes × C)) (hash : Bytes) (o : Option C)
    → find_client clients hash ≡ none
    → Kept clients hash (keep_client clients hash o)
unfolding keep_client
keep_client-Kept clients hash none h = refused _ refl
keep_client-Kept clients hash (some c) h = added c h

init_from_uri-Kept :
    {C : Type 0} (env : Env) (lib : Library C) (clients : List (Bytes × C)) (hash : Bytes)
    (driver_options : Option Table) (a : Attempt Uri)
    → find_client clients hash ≡ none
    → Cleans a
    → Kept clients hash (init_from_uri env lib clients hash driver_options a)
unfolding init_from_uri
init_from_uri-Kept env lib clients hash driver_options (cleanup faults) h i = refused faults i
init_from_uri-Kept env lib clients hash driver_options (going uri) h i =
    elim (Bool-cases (is_pending (ssl_faults lib.text_conversion driver_options))) [
      | inl e ↦ rw e (refused _ e)
      | inr e ↦ rw e (
          keep_client-Kept clients hash (make_client lib uri (make_ssl_options env driver_options))
            h)
    ]

init_new-Kept :
    {C : Type 0} (env : Env) (lib : Library C) (clients : List (Bytes × C))
    (hash uri_string : Bytes) (options driver_options : Option Table)
    → find_client clients hash ≡ none
    → Kept clients hash (init_new env lib clients hash uri_string options driver_options)
unfolding init_new
init_new-Kept env lib clients hash uri_string options driver_options h =
    elim (Bool-cases (is_pending (options_to_bson env options).1)) [
      | inl e ↦ rw e (refused _ e)
      | inr e ↦ rw e (
          init_from_uri-Kept env lib clients hash driver_options _ h
            (prepare_uri-Cleans lib uri_string (options_to_bson env options).0))
    ]

-- Whatever a Manager is made with: its client is the one that the process has kept by the hash of the
-- arguments, or else a new one that is kept by it, at the end; or there is no client, an exception
-- has been thrown, and the clients of the process are as they were.
pub manager_init-Kept :
    {C : Type 0} (env : Env) (lib : Library C) (clients : List (Bytes × C)) (uri_string : Bytes)
    (options driver_options : Option Table)
    → Kept clients
        (make_client_hash lib uri_string options driver_options).0
        (manager_init env lib clients uri_string options driver_options)
unfolding manager_init
manager_init-Kept env lib clients uri_string options driver_options =
    let hash = (make_client_hash lib uri_string options driver_options).0 in
    elim (Bool-cases (is_pending (make_client_hash lib uri_string options driver_options).1)) [
      | inl e ↦ rw e (refused _ e)
      | inr e ↦ elim (Option-cases (find_client clients hash)) [
        | inl n ↦ rw (e, n) (init_new-Kept env lib clients hash uri_string options driver_options n)
        | inr (c, n) ↦ rw (e, n) (found c n)
      ]
    ]

Kept-found :
    {C : Type 0} (clients : List (Bytes × C)) (hash : Bytes) (r : Initialised C) (c : C)
    → Kept clients hash r
    → r.client ≡ some c
    → find_client r.clients hash ≡ some c
Kept-found clients hash _ c (found d h) e = h ∙ e
Kept-found clients hash _ c (added d h) e = find_client-new clients hash d h ∙ e
Kept-found clients hash _ c (refused faults p) e = absurd (none≢some e)

pending-no_client :
    {C : Type 0} (env : Env) (lib : Library C) (clients : List (Bytes × C)) (uri_string : Bytes)
    (options driver_options : Option Table)
    → is_pending (make_client_hash lib uri_string options driver_options).1 ≡ true
    → (manager_init env lib clients uri_string options driver_options).client ≡ none
unfolding manager_init
pending-no_client env lib clients uri_string options driver_options h = rw h refl

manager_init-found :
    {C : Type 0} (env : Env) (lib : Library C) (clients : List (Bytes × C)) (uri_string : Bytes)
    (options driver_options : Option Table) (c : C)
    → is_pending (make_client_hash lib uri_string options driver_options).1 ≡ false
    → find_client clients (make_client_hash lib uri_string options driver_options).0 ≡ some c
    → manager_init env lib clients uri_string options driver_options
      ≡ record { clients = clients; client = some c; thrown = [] }
unfolding manager_init
manager_init-found env lib clients uri_string options driver_options c h f = rw (h, f) refl

-- A Manager that is made a second time with the same arguments shares the client of the first, and
-- the clients of the process stay as they are.
pub manager_init-again :
    {C : Type 0} (env : Env) (lib : Library C) (clients : List (Bytes × C)) (uri_string : Bytes)
    (options driver_options : Option Table) (c : C)
    → (manager_init env lib clients uri_string options driver_options).client ≡ some c
    → let first : List (Bytes × C) =
        (manager_init env lib clients uri_string options driver_options).clients in
      manager_init env lib first uri_string options driver_options
      ≡ record { clients = first; client = some c; thrown = [] }
manager_init-again env lib clients uri_string options driver_options c h =
    let r = manager_init env lib clients uri_string options driver_options in
    let hash = (make_client_hash lib uri_string options driver_options).0 in
    elim (Bool-cases (is_pending (make_client_hash lib uri_string options driver_options).1)) [
      | inl e ↦ absurd (
          none≢some
            (sym (pending-no_client env lib clients uri_string options driver_options e) ∙ h))
      | inr e ↦ manager_init-found env lib r.clients uri_string options driver_options c e (
          Kept-found clients hash r c
            (manager_init-Kept env lib clients uri_string options driver_options) h)
    ]

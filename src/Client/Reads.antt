-- ===== src/Client/Reads.antt =====
-- ea/client/discovery.cc: the functions of DiscoveryClient that read, here those on configs, and what all of them
-- share; ea/client/dumper.cc. The sender, JSON, files and the text of a number are parameters; the text of a
-- status is left out, and so are a config's type and time.
pub mod Namespaces
pub mod Zones
pub mod Servlets
mod Served
mod Tests
use ea.Common.{
  ℕ, Bool, true, false, not, Option, none, some, List, [], ◌∷◌, ◌++◌, ◌⊎◌, inl, inr, map, get_or,
  if◌then◌else◌, bytes,
}
use ea.Common.Bytes.{Bytes}
use ea.Common.Int.{ℤ}
use ea.Api.{ErrCode, ConfigInfo, ConfigVersion}
use ea.Query.{
  QueryRequest, QueryResponse, no_query, query_get_config, query_list_config,
  query_list_config_version,
}
use ea.Client.Requests.{
  StatusCode, invalid_argument, unknown_error, Status, ok_status, error, Loaded, is_success,
  string_to_version,
}

-- An early return, or what is read.
abbrev pub Read : Type 0 → Type 0
Read A = Loaded A

-- for (auto &a : l) if (keep(a)) out.push_back(f(a))
unfoldable pub push_where : {A B : Type 0} → (A → Bool) → (A → B) → List A → List B → List B
push_where keep f [] out = out
push_where keep f (a ∷ l) out =
    if keep a then push_where keep f l (out ++ (f a ∷ [])) else push_where keep f l out

-- auto rs = list(l); if (!rs.ok()) return rs; and the loop
unfoldable pub push_listed :
    {A B : Type 0} → (A → Bool) → (A → B) → Status × List A → List B → Status × List B
unfolding push_where
push_listed keep f (error code, l) out = (error code, out)
push_listed keep f (ok_status, l) out = (ok_status, push_where keep f l out)

-- Dumper::dump_proto
unfoldable pub dump_proto : {A : Type 0} → (A → Option Bytes) → A → Read Bytes
dump_proto to_json a = elim (to_json a) [ none ↦ inl invalid_argument | some text ↦ inr text ]

-- The loop that dumps those to keep, which leaves what it has pushed where it returns early.
unfoldable pub dump_where :
    {A : Type 0} → (A → Bool) → (A → Option Bytes) → List A → List Bytes → Status × List Bytes
unfolding dump_proto
dump_where keep to_json [] out = (ok_status, out)
dump_where keep to_json (a ∷ l) out = elim (keep a) [
  | false ↦ dump_where keep to_json l out
  | true ↦ elim (dump_proto to_json a) [
    | inl code ↦ (error code, out)
    | inr text ↦ dump_where keep to_json l (out ++ (text ∷ []))
  ]
]

unfoldable pub dump_listed :
    {A : Type 0}
    → (A → Bool)
    → (A → Option Bytes)
    → Status × List A
    → List Bytes
    → Status × List Bytes
unfolding dump_where
dump_listed keep to_json (error code, l) out = (error code, out)
dump_listed keep to_json (ok_status, l) out = dump_where keep to_json l out

-- get_x_json
unfoldable pub dump_read : {A : Type 0} → (A → Option Bytes) → Read A → Read Bytes
unfolding dump_proto
dump_read to_json (inl code) = inl code
dump_read to_json (inr a) = dump_proto to_json a

-- The files: what open and write return, by the path and by what the file holds already.
pub record Files : Type 0 where
  pub open_file : Bytes → Status
  pub write_file : List Bytes → Bytes → Status

module _ (files : Files) where
  -- The loop of file.write: the status, and what the file holds.
  unfoldable pub write_all : List Bytes → List Bytes → Status × List Bytes
  write_all [] held = (ok_status, held)
  write_all (text ∷ l) held = elim (files.write_file held text) [
    | error code ↦ (error code, held)
    | ok_status ↦ write_all l (held ++ (text ∷ []))
  ]

  -- list_x_to_file: the list of texts, and the file; nothing where it is not opened.
  unfoldable pub save_listed : Bytes → Status × List Bytes → Status × List Bytes
  unfolding write_all
  save_listed path (error code, l) = (error code, [])
  save_listed path (ok_status, l) = elim (files.open_file path) [
    | error code ↦ (error code, [])
    | ok_status ↦ write_all l []
  ]

  -- save_config, and Dumper::dump_proto_to_file: one text.
  unfoldable pub save_read : Bytes → Read Bytes → Status × List Bytes
  unfolding write_all
  save_read path (inl code) = (error code, [])
  save_read path (inr text) = elim (files.open_file path) [
    | error code ↦ (error code, [])
    | ok_status ↦ write_all (text ∷ []) []
  ]

-- `number` is turbo::Format of one number.
unfoldable pub version_to_string : (ℕ → Bytes) → ConfigVersion → Bytes
version_to_string number v =
    number v.major ++ bytes "." ++ number v.minor ++ bytes "." ++ number v.patch

-- version() of a config, whose numbers are 0 where it has none
abbrev pub version_or_zero : ConfigInfo → ConfigVersion
version_or_zero info = get_or info.version (record { major = 0; minor = 0; patch = 0 })

-- `send` is discovery_query, `default_code` what errcode() returns where the response has none.
module _ (send : QueryRequest → Status × QueryResponse) (default_code : ErrCode) where
  -- if (!rs.ok()) return rs; if (response.errcode() != SUCCESS) return UnknownError(...);
  unfoldable pub received : Status × QueryResponse → Read QueryResponse
  received (error code, response) = inl code
  received (ok_status, response) =
      if not (is_success (get_or response.errcode default_code))
      then inl unknown_error
      else inr response

  -- The query, and the loop over what the response lists.
  unfoldable pub list_by :
      {A B : Type 0} → QueryRequest → (QueryResponse → List A) → (A → B) → List B → Status × List B
  unfolding received push_where
  list_by q infos f out = elim (received (send q)) [
    | inl code ↦ (error code, out)
    | inr response ↦ (ok_status, push_where (λ a. true) f (infos response) out)
  ]

  -- if (infos_size() != 1) return ...; the one info
  unfoldable pub the_only : {A : Type 0} → StatusCode → List A → Read A
  the_only code [] = inl code
  the_only code (a ∷ []) = inr a
  the_only code (a ∷ b ∷ l) = inl code

  unfoldable pub get_by :
      {A : Type 0} → QueryRequest → StatusCode → (QueryResponse → List A) → Read A
  unfolding received the_only
  get_by q code infos = elim (received (send q)) [
    | inl early ↦ inl early
    | inr response ↦ the_only code (infos response)
  ]

  -- list_config of the client
  unfoldable pub list_config_names : List Bytes → Status × List Bytes
  unfolding list_by
  list_config_names configs =
      list_by (record no_query { op_type = query_list_config }) (λ r. r.config_infos)
        (λ config. config.name) configs

  -- the request of both list_config_version
  unfoldable pub versions_of : Bytes → QueryRequest
  versions_of config_name = record no_query {
    op_type = query_list_config_version;
    config_name = some config_name;
  }

  unfoldable pub list_config_version_texts : (ℕ → Bytes) → Bytes → List Bytes → Status × List Bytes
  unfolding list_by version_to_string versions_of
  list_config_version_texts number config_name versions =
      list_by (versions_of config_name) (λ r. r.config_infos)
        (λ config. version_to_string number (version_or_zero config)) versions

  unfoldable pub list_config_version_numbers :
      Bytes → List ConfigVersion → Status × List ConfigVersion
  unfolding list_by versions_of
  list_config_version_numbers config_name versions =
      list_by (versions_of config_name) (λ r. r.config_infos) version_or_zero versions

  unfoldable pub get_config_latest : Bytes → Read ConfigInfo
  unfolding get_by
  get_config_latest config_name =
      get_by (record no_query { op_type = query_get_config; config_name = some config_name })
        invalid_argument (λ r. r.config_infos)

  -- get_config_latest of a content and a version's text
  unfoldable pub get_config_latest_text : (ℕ → Bytes) → Bytes → Read (Bytes × Bytes)
  unfolding get_config_latest version_to_string
  get_config_latest_text number config_name = elim (get_config_latest config_name) [
    | inl code ↦ inl code
    | inr config ↦ inr (config.content, version_to_string number (version_or_zero config))
  ]

  -- get_config_latest of a content and a ModuleVersion
  unfoldable pub get_config_latest_module : Bytes → Read (Bytes × ConfigVersion)
  unfolding get_config_latest
  get_config_latest_module config_name = elim (get_config_latest config_name) [
    | inl code ↦ inl code
    | inr config ↦ inr (config.content, version_or_zero config)
  ]

  module _ (str_split : Bytes → List Bytes) (simple_atoi : Bytes → Option ℕ) where
    -- get_config of a version's text
    unfoldable pub get_config_info : Bytes → Bytes → Read ConfigInfo
    unfolding get_by string_to_version
    get_config_info config_name version = elim (string_to_version str_split simple_atoi version) [
      | none ↦ inl invalid_argument
      | some v ↦
          get_by
            (record no_query {
              op_type = query_get_config;
              config_name = some config_name;
              config_version = some v;
            })
            invalid_argument (λ r. r.config_infos)
    ]

    -- get_config of a content
    unfoldable pub get_config_content : Bytes → Bytes → Read Bytes
    unfolding get_config_info
    get_config_content config_name version = elim (get_config_info config_name version) [
      | inl code ↦ inl code
      | inr config ↦ inr config.content
    ]

    unfoldable pub save_config : Files → Bytes → Bytes → Bytes → Status × List Bytes
    unfolding get_config_content save_read
    save_config files config_name version path =
        save_read files path (get_config_content config_name version)

-- ===== src/Server/Token/OnMemory.antt =====
-- server/handlers.go on storage/memory/memory.go: the in-memory storage forgets a deleted code.
use dex.Prelude.{String, ok, ◌≡◌, string_eq, eq_refl, Option-cases, inl, inr, arith}
use dex.GoMap.{lookup}
use dex.GoMap.Laws.{lookup-delete}
use dex.Memory.Table
use dex.Memory.{
  MemStorage, memory, session_id_eq, get_auth_code, delete_auth_code, get_connector, create_refresh,
  delete_refresh, get_offline_sessions, create_offline_sessions, update_offline_sessions,
}
use dex.Server.Token.Gone.{Gone, CodeLaws}

module _ (to_lower : String → String) where
  deleted-Gone :
      (code : String) (s : MemStorage)
      → (delete_auth_code code s).0 ≡ ok tt
      → Gone (memory to_lower) code (delete_auth_code code s).1
  unfolding delete_auth_code get_auth_code Table.remove Table.get
  deleted-Gone code s h = elim (Option-cases (lookup code s.auth_codes)) [
    | inl e ↦ ground (arith, e)
    | inr (a, e) ↦ ground (arith, e, lookup-delete code code s.auth_codes, eq_refl code)
  ]

  pub memory-CodeLaws : CodeLaws (memory to_lower)
  unfolding get_auth_code get_connector create_refresh delete_refresh get_offline_sessions
      create_offline_sessions update_offline_sessions
  memory-CodeLaws = record {
    deleted = deleted-Gone;
    connector = λ code id s h. h;
    refresh = λ code r s h. h;
    delete_refresh = λ code id s h. h;
    get_session = λ code user conn s h. h;
    create_session = λ code o s h. h;
    update_session = λ code user conn f s h. h;
  }

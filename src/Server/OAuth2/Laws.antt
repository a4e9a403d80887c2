-- ===== src/Server/OAuth2/Laws.antt =====
-- server/oauth2.go: what parseScopes and parseCrossClientScope find in a request's scopes.
use Prim.Native.String.{◌++◌ as ◌+++◌}
use dex.Prelude.{
  String, true, ◌||◌, List, [], ◌∷◌, ◌≡◌, arith, contains, ◌==◌, string_eq, eq_iff, eq_comm,
  Bool-cases, inl, inr,
}
use dex.Server.World.{Scopes}
use dex.Server.OAuth2.{parse_scopes_from, parse_scopes, scope_offline_access, scope_groups}

parse_scopes_from_lem :
    (s : Scopes) (scopes : List String)
    → parse_scopes_from s scopes ≡ record {
      offline_access = s.offline_access || contains scopes scope_offline_access;
      groups = s.groups || contains scopes scope_groups;
    }
unfolding parse_scopes_from contains
parse_scopes_from_lem s [] = ground arith
parse_scopes_from_lem s (scope ∷ scopes) = elim (Bool-cases (scope == scope_offline_access)) [
  | inl p ↦
      rw ((eq_iff scope scope_offline_access).0 p)
        (ground (arith, parse_scopes_from_lem (record s { offline_access = true }) scopes))
  | inr p ↦ elim (Bool-cases (scope == scope_groups)) [
    | inl q ↦
        rw ((eq_iff scope scope_groups).0 q)
          (ground (arith, parse_scopes_from_lem (record s { groups = true }) scopes))
    | inr q ↦ ground (
      arith,
      p,
      q,
      eq_comm scope scope_offline_access,
      eq_comm scope scope_groups,
      parse_scopes_from_lem s scopes,
    )
  ]
]

-- parseScopes asks the connector for offline access exactly if "offline_access" is among the scopes,
-- and for groups exactly if "groups" is.
pub parse_scopes_lem :
    (scopes : List String)
    → parse_scopes scopes ≡ record {
      offline_access = contains scopes scope_offline_access;
      groups = contains scopes scope_groups;
    }
unfolding parse_scopes
parse_scopes_lem scopes = parse_scopes_from_lem _ scopes

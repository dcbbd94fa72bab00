-- ===== src/Store/Content.antt =====
-- The ports of channels, rules and roles.
use democrachat.Prelude.{
  ℕ, Bool, true, false, ◌&&◌, not, Option, none, some, List, [], ◌∷◌, ◌++◌, any, retain, find,
  nat_beq, nat_eq, list_eq, ◌==◌, if◌then◌else◌, map,
}
use democrachat.Prelude.Maps.{Map, get, insert, remove, values}
use democrachat.Prelude.Std.{Text, u64_add}
use democrachat.Domain.Node.{compose_id}
use democrachat.Domain.Chat.{Channel, Rule, Role, RoleAssignment}
use democrachat.Store.{
  Inner, upsert_row, delete_row, record_row, channel_row, rule_row, role_row, assignment_row,
}

unfoldable pub next_channel_id : Inner → ℕ × Inner
next_channel_id s =
    let n = u64_add s.next_channel 1 in (compose_id s.node n, record s { next_channel = n })

unfoldable pub insert_channel : Inner → Channel → Inner
unfolding record_row
insert_channel s c =
    let t = record_row s upsert_row (channel_row c) in
    record t { channels = insert c.id c t.channels }

unfoldable pub find_channel : Inner → ℕ → Text → Option Channel
find_channel s server name =
    find (λ c. nat_beq c.server_id server && c.name == name) (values s.channels)

-- `retain(|_, m| ..)` on the map of messages.
abbrev pub retain_values {ℓ κ} : {K : Type ℓ} {V : Type κ} → (V → Bool) → Map K V → Map K V
retain_values p = retain (λ e. p e.1)

unfoldable pub remove_channel : Inner → ℕ → Bool × Inner
unfolding record_row
remove_channel s id = elim (get id s.channels) [
  | none ↦ (false, s)
  | some removed ↦
      let t =
        record_row (record s { channels = remove id s.channels }) delete_row
          (channel_row removed) in
      (true, record t { messages = retain_values (λ m. not (nat_beq m.channel_id id)) t.messages })
]

unfoldable pub next_rule_id : Inner → ℕ × Inner
next_rule_id s = let n = u64_add s.next_rule 1 in (compose_id s.node n, record s { next_rule = n })

unfoldable pub insert_rule : Inner → Rule → Inner
unfolding record_row
insert_rule s r =
    let t = record_row s upsert_row (rule_row r) in record t { rules = insert r.id r t.rules }

unfoldable pub remove_rule : Inner → ℕ → Bool × Inner
unfolding record_row
remove_rule s id = elim (get id s.rules) [
  | none ↦ (false, s)
  | some removed ↦
      (true, record_row (record s { rules = remove id s.rules }) delete_row (rule_row removed))
]

unfoldable pub next_role_id : Inner → ℕ × Inner
next_role_id s = let n = u64_add s.next_role 1 in (compose_id s.node n, record s { next_role = n })

unfoldable pub insert_role : Inner → Role → Inner
unfolding record_row
insert_role s r =
    let t = record_row s upsert_row (role_row r) in record t { roles = insert r.id r t.roles }

unfoldable pub find_role : Inner → ℕ → Text → Option Role
find_role s server name = find (λ r. nat_beq r.server_id server && r.name == name) (values s.roles)

unfoldable pub remove_role : Inner → ℕ → Bool × Inner
unfolding record_row
remove_role s id = elim (get id s.roles) [
  | none ↦ (false, s)
  | some removed ↦
      let t = record_row (record s { roles = remove id s.roles }) delete_row (role_row removed) in
      (
        true,
        record t { role_assignments = retain (λ a. not (nat_beq a.role_id id)) t.role_assignments },
      )
]

abbrev pub is_assignment : ℕ → ℕ → RoleAssignment → Bool
is_assignment role user a = nat_beq a.role_id role && nat_beq a.user user

unfoldable pub assign : Inner → RoleAssignment → Bool × Inner
unfolding record_row
assign s a = if any (is_assignment a.role_id a.user) s.role_assignments then (false, s) else (
  true,
  (let t = record_row s upsert_row (assignment_row a) in
      record t { role_assignments = t.role_assignments ++ a ∷ [] }),
)

unfoldable pub unassign : Inner → ℕ → ℕ → Bool × Inner
unfolding record_row
unassign s role user = elim (find (is_assignment role user) s.role_assignments) [
  | none ↦ (false, s)
  | some a ↦ (
    true,
    record_row
        (record s {
          role_assignments = retain (λ b. not (is_assignment role user b)) s.role_assignments;
        })
        delete_row (assignment_row a),
  )
]

unfoldable pub holders : Inner → ℕ → List ℕ
holders s role = map (λ a. a.user) (retain (λ a. nat_beq a.role_id role) s.role_assignments)

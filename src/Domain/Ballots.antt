-- ===== src/Domain/Ballots.antt =====
-- crates/domain/src/governance/ballot_kind.rs: the kinds of decision that a server may govern.
-- A `BTreeSet` of kinds is a list of them, of which only membership is read.
use democrachat.Prelude.{
  ℕ, ◌≡◌, refl, ap, ◌∙◌, sym, ◌↔◌, Bool, true, Option, some, List, [], ◌∷◌, Eq, ◌==◌, nat_beq,
  nat_beq_iff, nat_eq, list_eq, list_beq_iff, get_elem?, extend, find, find-holds,
}
use democrachat.Prelude.Std.{Text, codes}

pub data BallotKind : Type 0 where
  remove_content ban timeout recall create_channel delete_channel : BallotKind
  add_rule remove_rule amend_criteria set_jury_sizing set_vote_weighting : BallotKind
  set_weighting_scope grant_vote_weight set_governance_surface manage_roles : BallotKind
  set_rehoming_policy set_invite_policy : BallotKind

unfoldable pub all_kinds : List BallotKind
all_kinds =
    remove_content ∷ ban ∷ timeout ∷ recall ∷ create_channel ∷ delete_channel ∷ add_rule
    ∷ remove_rule ∷ amend_criteria ∷ set_jury_sizing ∷ set_vote_weighting ∷ set_weighting_scope
    ∷ grant_vote_weight ∷ set_governance_surface ∷ manage_roles ∷ set_rehoming_policy
    ∷ set_invite_policy ∷ []

-- The discriminant, by which derived equality compares.
abbrev discriminant : BallotKind → ℕ
discriminant remove_content = 0
discriminant ban = 1
discriminant timeout = 2
discriminant recall = 3
discriminant create_channel = 4
discriminant delete_channel = 5
discriminant add_rule = 6
discriminant remove_rule = 7
discriminant amend_criteria = 8
discriminant set_jury_sizing = 9
discriminant set_vote_weighting = 10
discriminant set_weighting_scope = 11
discriminant grant_vote_weight = 12
discriminant set_governance_surface = 13
discriminant manage_roles = 14
discriminant set_rehoming_policy = 15
discriminant set_invite_policy = 16

get_elem?-discriminant : (k : BallotKind) → get_elem? all_kinds (discriminant k) ≡ some k
unfolding all_kinds
get_elem?-discriminant remove_content = refl
get_elem?-discriminant _ = refl

abbrev kind_beq : BallotKind → BallotKind → Bool
kind_beq a b = nat_beq (discriminant a) (discriminant b)

some_injective : {a b : BallotKind} → some a ≡ some b → a ≡ b
some_injective h = cc

pub kind_beq_iff : (a b : BallotKind) → (kind_beq a b ≡ true) ↔ (a ≡ b)
kind_beq_iff a b = (
  (λ h. some_injective (
      sym (get_elem?-discriminant a)
      ∙ (ap (get_elem? all_kinds) ((nat_beq_iff _ _).0 h) ∙ get_elem?-discriminant b))),
  λ e. (nat_beq_iff _ _).1 (ap discriminant e),
)

instance abbrev pub kind_eq : Eq BallotKind
kind_eq = record { beq = kind_beq; beq_iff = kind_beq_iff }

abbrev pub always_on : List BallotKind
always_on = amend_criteria ∷ set_governance_surface ∷ []

unfoldable pub platform_default_surface : List BallotKind
platform_default_surface =
    extend
      (remove_content ∷ ban ∷ timeout ∷ recall ∷ create_channel ∷ delete_channel ∷ add_rule
        ∷ remove_rule ∷ set_jury_sizing ∷ manage_roles ∷ set_rehoming_policy ∷ set_invite_policy
        ∷ [])
      always_on

-- The variant's name, as `{:?}` prints it.
unfoldable pub debug_name : BallotKind → Text
debug_name remove_content = codes "RemoveContent"
debug_name ban = codes "Ban"
debug_name timeout = codes "Timeout"
debug_name recall = codes "Recall"
debug_name create_channel = codes "CreateChannel"
debug_name delete_channel = codes "DeleteChannel"
debug_name add_rule = codes "AddRule"
debug_name remove_rule = codes "RemoveRule"
debug_name amend_criteria = codes "AmendCriteria"
debug_name set_jury_sizing = codes "SetJurySizing"
debug_name set_vote_weighting = codes "SetVoteWeighting"
debug_name set_weighting_scope = codes "SetWeightingScope"
debug_name grant_vote_weight = codes "GrantVoteWeight"
debug_name set_governance_surface = codes "SetGovernanceSurface"
debug_name manage_roles = codes "ManageRoles"
debug_name set_rehoming_policy = codes "SetRehomingPolicy"
debug_name set_invite_policy = codes "SetInvitePolicy"

unfoldable pub from_name : Text → Option BallotKind
from_name name = find (λ k. debug_name k == name) all_kinds

from_name-debug_name : (k : BallotKind) → from_name (debug_name k) ≡ some k
unfolding from_name debug_name all_kinds
from_name-debug_name remove_content = refl
from_name-debug_name _ = refl

-- A text is read as a kind exactly when it is the name that the kind is printed with.
pub from_name_iff :
    (name : Text) (k : BallotKind) → (from_name name ≡ some k) ↔ (name ≡ debug_name k)
unfolding from_name
from_name_iff name k = (
  (λ h. sym ((list_beq_iff _ _).0 (find-holds (λ j. debug_name j == name) all_kinds k h))),
  λ e. ap from_name e ∙ from_name-debug_name k,
)

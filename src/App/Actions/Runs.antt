-- ===== src/App/Actions/Runs.antt =====
-- What holds of the memberships after any history of requests.
use democrachat.Prelude.{
  not, if◌then◌else◌, ℕ, ◌≡◌, refl, Bool, true, Option, none, some, List, [], ◌∷◌,
}
use democrachat.Prelude.Std.{Text}
use democrachat.Domain.Time.{Timestamp}
use democrachat.Domain.Membership.{Tier, is_citizen_tier}
use democrachat.Store.{Inner, get_membership}
use democrachat.Store.Members.{Keyed, standing_of}
use democrachat.App.Franchise.{is_some}
use democrachat.App.Paths
use democrachat.App.Paths.{Way}
use democrachat.App.Actions.{Action, perform, perform_all}
use democrachat.App.Actions.Paths.{perform_paths}

-- A citizen has an instant of admission, and nobody else has one.
abbrev pub stamped : Option (Tier × Option Timestamp) → Bool
stamped none = true
stamped (some (tier, at)) = if is_citizen_tier tier then is_some at else not (is_some at)

abbrev pub Stamped : Inner → Type 0
Stamped s = (u v : ℕ) → stamped (standing_of (get_membership s u v)) ≡ true

Stamped-Way :
    (s t : Inner) (now : Timestamp) (u v : ℕ)
    → Way s t now u v
    → stamped (standing_of (get_membership s u v)) ≡ true
    → stamped (standing_of (get_membership t u v)) ≡ true
Stamped-Way s t now u v (Paths.unchanged e) h = rw e h
Stamped-Way s t now u v (Paths.entered _ e) h = rw e refl
Stamped-Way s t now u v (Paths.earned _ _ _ _ _ _ _ _ _ _ e) h = rw e refl
Stamped-Way s t now u v (Paths.founded _ _ _ _ e) h = rw e refl

-- After any history of requests to a store where each membership is under its own user and server,
-- and where exactly the citizens have an instant of admission, both hold again.
pub perform_all-Stamped :
    (hash_code lower : Text → Text) (s : Inner) (history : List (Timestamp × Action))
    → Keyed s
    → Stamped s
    → Keyed (perform_all hash_code lower s history)
      × Stamped (perform_all hash_code lower s history)
unfolding perform_all
perform_all-Stamped h l s [] k c = (k, c)
perform_all-Stamped h l s ((now, a) ∷ rest) k c =
    let (k', paths) = perform_paths h l s now a k in
    perform_all-Stamped h l (perform h l s now a) rest k'
      (λ u v. Stamped-Way s (perform h l s now a) now u v (paths u v) (c u v))

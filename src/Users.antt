-- ===== src/Users.antt =====
-- frontend/src/app/users/user-labels.ts: the access of an account, and the labels of its identities
-- and of its rights.
-- The tables are read at texts of the server, none of which is a name that every object inherits.
pub mod Decisions
pub mod Form
pub mod Laws
mod Tests
use Prim.Native.Char.{code}
use Prim.Native.String
use asl_bissieux.Prelude.{
  Bool, true, false, List, [], ◌∷◌, map, Option, none, some, if◌then◌else◌, ◌==◌, get_or, any, not,
}
use asl_bissieux.Prelude.Strings.{String, str_eq}
use asl_bissieux.Prelude.Text.{or_else}
use asl_bissieux.Members.Matching.{includes}

-- `AuthUserIdentity`
pub record Identity : Type 0 where
  pub issuer : Option String

-- `AuthUser`
pub record User : Type 0 where
  pub id : Option String
  pub username : Option String
  pub access_status : Option String
  pub enabled : Option Bool
  pub admin : Option Bool
  pub actions : Option (List String)
  pub identities : Option (List Identity)
  pub updated_at : Option String

-- `accessState`
unfoldable pub access_state : User → String
access_state u = get_or u.access_status (if get_or u.enabled false then "active" else "disabled")

-- `table[key]`
unfoldable pub look_up : List (String × String) → String → Option String
look_up [] key = none
look_up ((k, v) ∷ rest) key = let other = look_up rest key in if str_eq k key then some v else other

abbrev access_labels : List (String × String)
access_labels =
    ("active", "Actif")
    ∷ ("pending", "Demande en attente")
    ∷ ("rejected", "Accès refusé")
    ∷ ("disabled", "Accès désactivé")
    ∷ []

-- The column "access" of the list: `accessLabels[accessState(u)] ?? 'Accès désactivé'`.
unfoldable pub access_text : User → String
unfolding look_up access_state
access_text u = get_or (look_up access_labels (access_state u)) "Accès désactivé"

-- `new Set(xs)` spread into an array; `seen` is what it holds.
unfoldable pub distinct_from : (seen xs : List String) → List String
distinct_from seen [] = []
distinct_from seen (x ∷ xs) =
    let skipped = distinct_from seen xs in
    let kept = distinct_from (x ∷ seen) xs in if any (str_eq x) seen then skipped else x ∷ kept

unfoldable pub distinct : List String → List String
unfolding distinct_from
distinct xs = distinct_from [] xs

-- `join(', ')`
unfoldable pub join_commas : List String → String
join_commas [] = ""
join_commas (x ∷ []) = x
join_commas (x ∷ y ∷ xs) = String.◌++◌ x (String.◌++◌ ", " (join_commas (y ∷ xs)))

unfoldable pub provider_of : Identity → String
unfolding includes
provider_of i = elim i.issuer [
  | none ↦ "Fournisseur OIDC"
  | some issuer ↦
      if str_eq issuer "https://accounts.google.com"
      then "Google"
      else if includes "/realms/" issuer
      then "Keycloak"
      else "Fournisseur OIDC"
]

-- `providerLabel`
unfoldable pub provider_label : User → String
unfolding provider_of distinct join_commas
provider_label u =
    or_else (join_commas (distinct (map provider_of (get_or u.identities []))))
      "Identité non associée"

abbrev permissions : List (String × String)
permissions =
    ("budget.CreateBudget", "Créer un budget")
    ∷ ("budget.UpdateBudget", "Renommer un budget")
    ∷ ("budget.DeleteBudget", "Supprimer un brouillon")
    ∷ ("budget.PublishBudget", "Publier les appels de cotisation")
    ∷ ("budget.CreateExpense", "Ajouter une dépense au brouillon")
    ∷ ("budget.UpdateExpense", "Modifier une dépense du brouillon")
    ∷ ("budget.DeleteExpense", "Supprimer une dépense du brouillon")
    ∷ ("budget.CreatePayment", "Enregistrer un paiement")
    ∷ ("budget.UpdatePayment", "Corriger un paiement")
    ∷ ("budget.DeletePayment", "Supprimer un paiement")
    ∷ ("budget.CreateRefund", "Enregistrer et annuler un remboursement")
    ∷ ("budget.CreateAdjustment", "Ajuster et annuler un appel publié")
    ∷ ("budget.SendEmail", "Préparer une campagne depuis un budget")
    ∷ ("email.CreateEmailTemplate", "Créer un modèle d’e-mail")
    ∷ ("email.UpdateEmailTemplate", "Modifier un modèle d’e-mail")
    ∷ ("email.DeleteEmailTemplate", "Supprimer un modèle d’e-mail")
    ∷ ("email.AddAttachment", "Ajouter une pièce jointe")
    ∷ ("email.RemoveAttachment", "Retirer une pièce jointe")
    ∷ ("email.CreateEmailCampaign", "Créer une campagne")
    ∷ ("email.DeleteEmailCampaign", "Supprimer une campagne")
    ∷ ("email.DeleteEmail", "Supprimer un e-mail")
    ∷ ("email.SendEmail", "Envoyer des e-mails")
    ∷ ("email.SetError", "Autoriser un renvoi après vérification")
    ∷ ("member.CreateMember", "Ajouter un membre")
    ∷ ("member.UpdateMember", "Modifier un membre")
    ∷ ("member.DeleteMember", "Supprimer un membre")
    ∷ ("member.LinkUnit", "Associer un membre à un lot")
    ∷ ("member.UnlinkUnit", "Retirer un membre d’un lot")
    ∷ ("unit.CreateUnit", "Ajouter un lot")
    ∷ ("unit.UpdateUnit", "Modifier un lot")
    ∷ ("unit.DeleteUnit", "Supprimer un lot")
    ∷ []

-- `permissionLabel`
unfoldable pub permission_label : String → String
unfolding look_up
permission_label action =
    get_or (look_up permissions action) (String.◌++◌ "Autorisation historique : " action)

-- `action.split('.')[0]`
unfoldable pub before_dot : String → String
before_dot String.[] = String.[]
before_dot (String.◌∷◌ c s) =
    let rest = before_dot s in if code c == 46 then String.[] else String.◌∷◌ c rest

abbrev permission_groups : List (String × String)
permission_groups =
    ("budget", "Budgets et paiements")
    ∷ ("email", "E-mails")
    ∷ ("member", "Annuaire — membres")
    ∷ ("unit", "Annuaire — lots")
    ∷ []

-- `permissionGroup`
unfoldable pub permission_group : String → String
unfolding look_up before_dot
permission_group action =
    get_or (look_up permission_groups (before_dot action)) "Autorisations historiques"

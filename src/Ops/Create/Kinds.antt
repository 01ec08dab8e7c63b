-- ===== src/Ops/Create/Kinds.antt =====
-- The types of jobs, and the phrases that confirm them.
use x_ui_aggr.Prelude.{
  sym, str_eq_iff, Option, none, some, ◌||◌, String, ◌≡◌, refl, Bool, true, false, not, ◌&&◌, ◌⊎◌,
  inl, inr, ◌is◌, subst,
}
use x_ui_aggr.Prelude.Strings.{trim_space}
use x_ui_aggr.Ops.Types.{CreateJobRequest}
use x_ui_aggr.Ops.Create.{
  lacks_confirm, is_supported_job_type, is_agent_job_type, required_confirm, confirms,
}

-- The types of jobs, with the phrase that confirms one on all nodes, and whether its nodes need an
-- agent.
pub data IsJobType : String → Option String → Bool → Type 0 where
  reboot_nodes : IsJobType "reboot_nodes" (some "REALLY_DO_IT") false
  update_nodes : IsJobType "update_nodes" (some "REALLY_DO_IT") false
  deploy_agents : IsJobType "deploy_agent" (some "DEPLOY_AGENT") false
  install_vlf_proto : IsJobType "install_vlf_proto" (some "INSTALL_VLF_PROTO") false
  remna_geodata_install : IsJobType "remna_geodata_install" (some "REMNA_GEODATA_INSTALL") false
  remna_geodata_run : IsJobType "remna_geodata_run" (some "REMNA_GEODATA_RUN") false
  update_services : IsJobType "update_services" (some "REALLY_DO_IT") true
  reboot_node : IsJobType "reboot_node" (some "REALLY_DO_IT") true
  restart_service : IsJobType "restart_service" none true

-- What the code makes of a type agrees with the table above.
abbrev pub HasType : String → Type 0
HasType t =
    (phrase : Option String) × (agent : Bool) × IsJobType t phrase agent
    × (required_confirm t ≡ phrase)
    × (is_agent_job_type t ≡ agent)

named : (name : String) {t : String} → HasType name → (t is name) ≡ true → HasType t
named name {t} known same = subst HasType (sym ((str_eq_iff t name).0 same)) known

pub either : {A : Type 0} (a b : Bool) → (a || b) ≡ true → (b ≡ true → A) → (a ≡ true → A) → A
either true b h f g = g refl
either false b h f g = f h

pub supported-HasType : (t : String) → is_supported_job_type t ≡ true → HasType t
unfolding required_confirm ◌is◌
supported-HasType t h =
    either _ _ h (named "restart_service" (_, _, restart_service, refl, refl)) (λ h.
      either _ _ h (named "reboot_node" (_, _, reboot_node, refl, refl)) (λ h.
        either _ _ h (named "update_services" (_, _, update_services, refl, refl)) (λ h.
          either _ _ h (named "remna_geodata_run" (_, _, remna_geodata_run, refl, refl)) (λ h.
            either _ _ h (named "remna_geodata_install" (_, _, remna_geodata_install, refl, refl))
              (λ h.
                either _ _ h (named "install_vlf_proto" (_, _, install_vlf_proto, refl, refl)) (λ h.
                  either _ _ h (named "deploy_agent" (_, _, deploy_agents, refl, refl)) (λ h.
                    either _ _ h (named "update_nodes" (_, _, update_nodes, refl, refl))
                      (named "reboot_nodes" (_, _, reboot_nodes, refl, refl)))))))))

-- The text of a request is the phrase, up to the space around it.
abbrev pub IsConfirmed : Option String → String → Type 0
IsConfirmed none text = Unit
IsConfirmed (some phrase) text = trim_space text ≡ phrase

confirms-IsConfirmed :
    (phrase : Option String) (text : String) → confirms phrase text ≡ true → IsConfirmed phrase text
confirms-IsConfirmed none text h = tt
confirms-IsConfirmed (some phrase) text h = (str_eq_iff (trim_space text) phrase).0 h

not_lacking :
    (all dry confirmed : Bool)
    → ((all && not dry) && not confirmed) ≡ false
    → (all ≡ false) ⊎ (dry ≡ true) ⊎ (confirmed ≡ true)
not_lacking false dry confirmed h = inl refl
not_lacking true true confirmed h = inr (inl refl)
not_lacking true false true h = inr (inr refl)
not_lacking true false false h = absurd cc

pub lacks_confirm-IsConfirmed :
    (req : CreateJobRequest) (t : String) (phrase : Option String)
    → required_confirm t ≡ phrase
    → lacks_confirm req t ≡ false
    → (req.all_nodes ≡ false) ⊎ (req.params.dry_run ≡ true) ⊎ IsConfirmed phrase req.params.confirm
lacks_confirm-IsConfirmed req t phrase same h =
    elim (not_lacking req.all_nodes req.params.dry_run _ h) [
      | inl few ↦ inl few
      | inr (inl dry) ↦ inr (inl dry)
      | inr (inr c) ↦ inr (
          inr (
            subst (λ x. IsConfirmed x req.params.confirm) same
              (confirms-IsConfirmed (required_confirm t) req.params.confirm c)))
    ]

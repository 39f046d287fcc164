-- ===== src/Vibe.antt =====
-- Who may do what with a Vibe site: crates/chudbot-vibe/src/access.rs. Of an actor and a site the
-- fields that the checks read are kept.
pub mod Laws
pub mod Names
pub mod Tests
use chudbot.Common.{
  Bool, true, false, not, ◌&&◌, ◌||◌, Option, some, none, List, any, is_empty, Text, text_eq,
  option_text_eq, if◌then◌else◌,
}

pub data VibeRole : Type 0 where
  member editor owner admin : VibeRole

pub data VibeOperation : Type 0 where
  view create edit manage purge : VibeOperation

pub data VibeAccessError : Type 0 where
  disabled direct_message guild_not_allowed not_member wrong_guild forbidden : VibeAccessError

-- `Result<(), VibeAccessError>`.
pub data Check : Type 0 where
  granted : Check
  denied : VibeAccessError → Check

pub record VibeAllowedGuild : Type 0 where
  pub platform : Text
  pub guild_id : Text

pub record VibeAccessConfig : Type 0 where
  pub admins_only : Bool
  pub allowed_guilds : List VibeAllowedGuild

pub record VibeAccess : Type 0 where
  pub enabled : Bool
  pub config : VibeAccessConfig

pub record VibeActor : Type 0 where
  pub platform : Text
  pub guild_id : Option Text
  pub is_admin : Bool

pub record VibeSite : Type 0 where
  pub platform : Text
  pub guild_id : Text

unfoldable pub is_allowed_guild : VibeAccessConfig → Text → Text → Bool
unfolding text_eq
is_allowed_guild config platform guild_id =
    is_empty config.allowed_guilds
    || any
        (λ (allowed : VibeAllowedGuild).
          text_eq allowed.platform platform && text_eq allowed.guild_id guild_id)
        config.allowed_guilds

abbrev pub is_change : VibeOperation → Bool
is_change VibeOperation.create = true
is_change VibeOperation.edit = true
is_change _ = false

unfoldable pub check_rollout : VibeAccess → VibeActor → VibeOperation → Check
unfolding is_allowed_guild
check_rollout access actor operation =
    if not access.enabled then Check.denied VibeAccessError.disabled else elim actor.guild_id [
      | none ↦ Check.denied VibeAccessError.direct_message
      | some guild_id ↦
          if not (is_allowed_guild access.config actor.platform guild_id)
          then Check.denied VibeAccessError.guild_not_allowed
          else if access.config.admins_only && is_change operation && not actor.is_admin
          then Check.denied VibeAccessError.forbidden
          else Check.granted
    ]

unfoldable pub role_allows : VibeOperation → VibeRole → Bool
role_allows VibeOperation.view role = true
role_allows VibeOperation.create role = false
role_allows VibeOperation.edit VibeRole.member = false
role_allows VibeOperation.edit VibeRole.editor = true
role_allows VibeOperation.edit VibeRole.owner = true
role_allows VibeOperation.edit VibeRole.admin = true
role_allows VibeOperation.manage VibeRole.member = false
role_allows VibeOperation.manage VibeRole.editor = false
role_allows VibeOperation.manage VibeRole.owner = true
role_allows VibeOperation.manage VibeRole.admin = true
role_allows VibeOperation.purge VibeRole.member = false
role_allows VibeOperation.purge VibeRole.editor = false
role_allows VibeOperation.purge VibeRole.owner = false
role_allows VibeOperation.purge VibeRole.admin = true

unfoldable pub check_site :
    VibeAccess → VibeActor → VibeSite → VibeRole → VibeOperation → Bool → Check
unfolding check_rollout role_allows option_text_eq text_eq
check_site access actor site role operation current_member =
    elim (check_rollout access actor operation) [
      | denied e ↦ Check.denied e
      | granted ↦
          if not current_member
          then Check.denied VibeAccessError.not_member
          else if not (text_eq actor.platform site.platform)
              || not (option_text_eq actor.guild_id (some site.guild_id))
          then Check.denied VibeAccessError.wrong_guild
          else if role_allows operation role
          then Check.granted
          else Check.denied VibeAccessError.forbidden
    ]

-- ===== src/Vibe/Tests.antt =====
-- Requests for Vibe sites: crates/chudbot-vibe/src/access.rs.
use chudbot.Common.{true, false, ◌≡◌, refl, some, [], ◌∷◌, codes, text_eq, option_text_eq}
use chudbot.Vibe.{
  VibeRole, VibeOperation, VibeAccess, VibeActor, VibeSite, Check, VibeAccessError, check_site,
}

abbrev access : VibeAccess
access = record {
  enabled = true;
  config = record {
    admins_only = false;
    allowed_guilds = record { platform = codes "discord"; guild_id = codes "1" } ∷ [];
  };
}

abbrev actor : VibeActor
actor = record { platform = codes "discord"; guild_id = some (codes "1"); is_admin = false }

abbrev site : VibeSite
site = record { platform = codes "discord"; guild_id = codes "1" }

editor_edits : check_site access actor site VibeRole.editor VibeOperation.edit true ≡ Check.granted
unfolding check_site text_eq option_text_eq
editor_edits = refl

editor_does_not_manage :
    check_site access actor site VibeRole.editor VibeOperation.manage true
    ≡ Check.denied VibeAccessError.forbidden
unfolding check_site text_eq option_text_eq
editor_does_not_manage = refl

-- ===== src/Vibe/Laws.antt =====
-- When a request for a Vibe site is granted: crates/chudbot-vibe/src/access.rs.
use chudbot.Common.{ℕ, ◌≤◌, Bool, true, false, not, ◌&&◌, ◌≡◌, some}
use chudbot.Vibe.{
  VibeRole, VibeOperation, VibeAccess, VibeActor, VibeSite, is_allowed_guild, is_change, member,
  editor, owner, admin, view, create, edit, manage, purge,
}

-- The roles in order, and the least role for an operation on a site; none is enough to create one.
abbrev pub rank : VibeRole → ℕ
rank VibeRole.member = 0
rank VibeRole.editor = 1
rank VibeRole.owner = 2
rank VibeRole.admin = 3

abbrev pub least_rank : VibeOperation → ℕ
least_rank VibeOperation.view = 0
least_rank VibeOperation.edit = 1
least_rank VibeOperation.manage = 2
least_rank VibeOperation.purge = 3
least_rank VibeOperation.create = 4

-- What a request must have.
unfoldable pub IsEntitled :
    VibeAccess → VibeActor → VibeSite → VibeRole → VibeOperation → Bool → Type 0
IsEntitled access actor site role operation current_member =
    (access.enabled ≡ true)
    × (actor.platform ≡ site.platform)
    × (actor.guild_id ≡ some site.guild_id)
    × (is_allowed_guild access.config site.platform site.guild_id ≡ true)
    × ((access.config.admins_only && is_change operation && not actor.is_admin) ≡ false)
    × (current_member ≡ true)
    × (least_rank operation ≤ rank role)

-- ===== src/Server/Bans.antt =====
-- src/server/ban_manager.c. Times are the values of time(NULL), an argument of each call; they and the
-- durations are of type u64.
use ps.Base.{
  ℕ, zero, suc, ◌+◌, ◌-◌, ◌^◌, ◌≤◌, ◌<◌, ◌≡◌, refl, ap, ◌∙◌, Bool, true, false, ◌&&◌, ◌||◌, List,
  [], ◌∷◌, ◌++◌, arith, ltb, if◌then◌else◌, length, get_or, take, take-eq_self, CString, strncpy,
  str_eq, sub64,
}
use ps.Chain.{remove_first}
use ps.Server.Table.{Table, append_slot, remove_slot}
use ps.Server.Table.Refinement.{live, IsTable, remove_slot-live, append_slot-done}

pub record BanEntry : Type 0 where
  pub ip_address : CString
  pub ban_time : ℕ
  pub duration : ℕ
  pub reason : CString

-- A slot of the static array before its first use.
abbrev no_ban : BanEntry
no_ban = record { ip_address = []; ban_time = 0; duration = 0; reason = [] }

abbrev pub has_ip : CString → BanEntry → Bool
has_ip ip b = str_eq b.ip_address ip

unfoldable pub ban_ip : CString → ℕ → CString → ℕ → Table BanEntry → Bool × Table BanEntry
ban_ip ip duration reason now t =
    append_slot
      (record {
        ip_address = strncpy 47 ip;
        ban_time = now;
        duration = duration;
        reason = strncpy 255 reason;
      })
      t

unfoldable pub unban_ip : CString → Table BanEntry → Bool × Table BanEntry
unban_ip ip t = remove_slot (has_ip ip) no_ban t

-- time(NULL) - ban_time < duration, for an entry with the address.
abbrev pub bans_at : CString → ℕ → BanEntry → Bool
bans_at ip now b = has_ip ip b && ltb (sub64 now b.ban_time) b.duration

-- for (i = ...; n rounds to go; i++)
is_banned_from : CString → ℕ → ℕ → ℕ → List BanEntry → Bool
is_banned_from ip now zero i slots = false
is_banned_from ip now (suc n) i slots =
    let later = is_banned_from ip now n (i + 1) slots in
    if bans_at ip now (get_or slots i no_ban) then true else later

unfoldable pub is_banned : CString → ℕ → Table BanEntry → Bool
unfolding is_banned_from
is_banned ip now t = is_banned_from ip now t.count 0 t.slots

-- Some slot in use bans the address.
abbrev pub any_ban : CString → ℕ → List BanEntry → Bool
any_ban ip now [] = false
any_ban ip now (b ∷ l) = bans_at ip now b || any_ban ip now l

is_banned_from-cons :
    (ip : CString) (now n i : ℕ) (b : BanEntry) (slots : List BanEntry)
    → is_banned_from ip now n (suc i) (b ∷ slots) ≡ is_banned_from ip now n i slots
unfolding is_banned_from
is_banned_from-cons ip now zero i b slots = refl
is_banned_from-cons ip now (suc n) i b slots =
    rw
      (
        let p : suc i + 1 ≡ suc (i + 1) = omega arith in p,
        is_banned_from-cons ip now n (i + 1) b slots,
      )
      refl

is_banned_from-any :
    (ip : CString) (now n : ℕ) (slots : List BanEntry)
    → n ≤ length slots
    → is_banned_from ip now n 0 slots ≡ any_ban ip now (take n slots)
unfolding is_banned_from
is_banned_from-any ip now zero slots h = refl
is_banned_from-any ip now (suc n) [] h = absurd (omega arith)
is_banned_from-any ip now (suc n) (b ∷ slots) h =
    ground (arith, is_banned_from-cons ip now n 0 b slots, is_banned_from-any ip now n slots)

is_banned-any :
    (ip : CString) (now : ℕ) (t : Table BanEntry)
    → IsTable t
    → is_banned ip now t ≡ any_ban ip now (live t)
unfolding is_banned
is_banned-any ip now t w =
    is_banned_from-any ip now t.count t.slots (omega (arith, w.sized, w.within))

any_ban-append :
    (ip : CString) (now : ℕ) (l k : List BanEntry)
    → any_ban ip now (l ++ k) ≡ (any_ban ip now l || any_ban ip now k)
any_ban-append ip now [] k = refl
any_ban-append ip now (b ∷ l) k = ground (arith, any_ban-append ip now l k)

-- The entry that ban_ip writes.
abbrev ban_entry : CString → ℕ → CString → ℕ → BanEntry
ban_entry ip duration reason now = record {
  ip_address = strncpy 47 ip;
  ban_time = now;
  duration = duration;
  reason = strncpy 255 reason;
}

any_ban-snoc :
    (ip : CString) (now : ℕ) (l : List BanEntry) (b : BanEntry)
    → any_ban ip now (l ++ b ∷ []) ≡ (any_ban ip now l || bans_at ip now b)
any_ban-snoc ip now [] b = ground arith
any_ban-snoc ip now (a ∷ l) b = ground (arith, any_ban-snoc ip now l b)

ban_entry-bans :
    (ip q : CString) (duration : ℕ) (reason : CString) (now later : ℕ)
    → length ip ≤ 47
    → now ≤ later
    → later < 2 ^ 64
    → bans_at q later (ban_entry ip duration reason now)
      ≡ (str_eq ip q && ltb (later - now) duration)
ban_entry-bans ip q duration reason now later s k lt =
    rw (take-eq_self 47 ip s, let e : sub64 later now ≡ later - now = omega arith in e) refl

-- After a ban that finds room, an address counts as banned at a later time exactly if it counted as
-- banned then without it, or is the address of the ban (of up to 47 characters) and fewer seconds have
-- passed than the ban lasts.
pub is_banned-ban :
    (ip q : CString) (duration : ℕ) (reason : CString) (now later : ℕ) (t : Table BanEntry)
    → IsTable t
    → length ip ≤ 47
    → (ban_ip ip duration reason now t).0 ≡ true
    → now ≤ later
    → later < 2 ^ 64
    → let t' = (ban_ip ip duration reason now t).1 in
      IsTable t'
      × (is_banned q later t'
          ≡ (is_banned q later t || (str_eq ip q && ltb (later - now) duration)))
unfolding ban_ip
is_banned-ban ip q duration reason now later t w s k n lt =
    let b : BanEntry = ban_entry ip duration reason now in
    let done = append_slot-done b t w k in
    (
      done.0,
      is_banned-any q later (append_slot b t).1 done.0
          ∙ ap (any_ban q later) done.1
          ∙ any_ban-snoc q later (live t) b
          ∙ rw (is_banned-any q later t w, ban_entry-bans ip q duration reason now later s n lt)
              refl,
    )

-- Lifting a ban removes the first entry of the address only: an address that was banned more than
-- once still counts as banned if a later entry of it has not run out.
pub is_banned-unban :
    (ip : CString) (now : ℕ) (t : Table BanEntry)
    → IsTable t
    → let t' = (unban_ip ip t).1 in
      IsTable t' × (is_banned ip now t' ≡ any_ban ip now (remove_first (has_ip ip) (live t)))
unfolding unban_ip
is_banned-unban ip now t w =
    let r = remove_slot-live (has_ip ip) no_ban t w in
    (r.0, is_banned-any ip now (remove_slot (has_ip ip) no_ban t).1 r.0 ∙ ap (any_ban ip now) r.1)

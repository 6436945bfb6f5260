-- ===== src/Probe/Session.antt =====
-- What the session is started with.
use autumnos_mobile.Common.{
  ℕ, ◌≡◌, refl, ap, inl, inr, Bool, true, false, not, ◌&&◌, Option, none, some, List, [], ◌∷◌, ◌++◌,
  if◌then◌else◌, Bool-cases, take, text_eq, codes, first_hit,
}
use autumnos_mobile.Touch.{starts_with}
use autumnos_mobile.Probe.{
  Directory, find_in, named, chkdrm, net_name, chk_ethint, chk_sndev, or_text, Machine, args_with,
  session_args,
}

-- No name passes a test.
abbrev pub NoneOf : (List ℕ → Bool) → List (List ℕ) → Type 0
NoneOf ok [] = Unit
NoneOf ok (name ∷ names) = (ok name ≡ false) × NoneOf ok names

abbrev pub Lacks : (List ℕ → Bool) → Directory → Type 0
Lacks ok none = Unit
Lacks ok (some names) = NoneOf ok names

-- `name` passes the test, and none before it in the directory.
pub data First (ok : List ℕ → Bool) (dir : Directory) (name : List ℕ) : Type 0 where
  first :
      (before after : List (List ℕ))
      → dir ≡ some (before ++ name ∷ after)
      → NoneOf ok before
      → ok name ≡ true
      → First ok dir name

-- `out` is made of the first name in the directory that passes, or is a default.
pub data Picks (ok : List ℕ → Bool) (f : List ℕ → List ℕ) (dir : Directory) (default out : List ℕ)
    : Type 0 where
  by_default : Lacks ok dir → out ≡ default → Picks ok f dir default out
  by_name : (name : List ℕ) → First ok dir name → out ≡ f name → Picks ok f dir default out

abbrev test_of : (List ℕ → Bool) → (List ℕ → List ℕ) → List ℕ → Option (List ℕ)
test_of ok f name = if ok name then some (f name) else none

-- The outcomes of a search.
data Search (ok : List ℕ → Bool) (f : List ℕ → List ℕ) (dir : Directory)
    : Option (List ℕ) → Type 0 where
  missing : Lacks ok dir → Search ok f dir none
  hit : (name : List ℕ) → First ok dir name → Search ok f dir (some (f name))

later :
    (ok : List ℕ → Bool) (f : List ℕ → List ℕ) (name : List ℕ) (names : List (List ℕ))
    (found : Option (List ℕ))
    → ok name ≡ false
    → Search ok f (some names) found
    → Search ok f (some (name ∷ names)) found
later ok f name names _ fails (Search.missing lacks) = Search.missing (fails, lacks)
later ok f name names _ fails
      (Search.hit found (First.first before after splits none_before yes_here)) =
    Search.hit found (
      First.first (name ∷ before) after (ap (λ d. or_names name d) splits) (fails, none_before)
        yes_here)
  where
    or_names : List ℕ → Directory → Directory
    or_names n none = none
    or_names n (some ns) = some (n ∷ ns)

search_names :
    (ok : List ℕ → Bool) (f : List ℕ → List ℕ) (names : List (List ℕ))
    → Search ok f (some names) (first_hit (test_of ok f) names)
search_names ok f [] = Search.missing tt
search_names ok f (name ∷ names) = elim (Bool-cases (ok name)) [
  | inl here ↦ rw (first_hit, here) (Search.hit name (First.first [] names refl tt here))
  | inr fails ↦
      rw (first_hit, fails)
        (later ok f name names (first_hit (test_of ok f) names) fails (search_names ok f names))
]

search_dir :
    (ok : List ℕ → Bool) (f : List ℕ → List ℕ) (dir : Directory)
    → Search ok f dir (find_in (test_of ok f) dir)
search_dir ok f none = Search.missing tt
search_dir ok f (some names) = search_names ok f names

picks :
    (ok : List ℕ → Bool) (f : List ℕ → List ℕ) (dir : Directory) (default : List ℕ)
    (found : Option (List ℕ))
    → Search ok f dir found
    → Picks ok f dir default (or_text found default)
picks ok f dir default _ (Search.missing lacks) = Picks.by_default lacks refl
picks ok f dir default _ (Search.hit name chosen) = Picks.by_name name chosen refl

abbrev pub is_interface : List ℕ → Bool
is_interface name =
    not (text_eq name (codes "."))
    && (not (text_eq name (codes "..")) && not (text_eq name (codes "lo")))

abbrev pub card_path : List ℕ → List ℕ
card_path name = take 63 (codes "/dev/dri/" ++ name)

abbrev pub sound_path : List ℕ → List ℕ
sound_path name = take 63 (codes "/dev/snd/" ++ name)

-- The sound device is "/dev/dsp" where there is one.
abbrev pub Sound : Bool → Directory → List ℕ → Type 0
Sound true snd out = out ≡ codes "/dev/dsp"
Sound false snd out =
    Picks (starts_with (codes "pcm")) sound_path snd (codes "/dev/snd/pcmC0D0p") out

-- How `main` starts the session.
pub data Starts (m : Machine) : Option (List (List ℕ)) → Type 0 where
  falls_back : Lacks (starts_with (codes "card")) m.dri → Starts m none
  starts :
      (card net snd : List ℕ)
      → First (starts_with (codes "card")) m.dri card
      → Picks is_interface (take 31) m.net (codes "eth0") net
      → Sound m.dsp m.snd snd
      → Starts m (some (card_path card ∷ net ∷ snd ∷ []))

chk_sndev-Sound :
    (dsp : Bool) (snd : Directory)
    → Sound dsp snd (or_text (chk_sndev 64 dsp snd) (codes "/dev/snd/pcmC0D0p"))
unfolding chk_sndev named
chk_sndev-Sound true snd = refl
chk_sndev-Sound false snd =
    picks (starts_with (codes "pcm")) sound_path snd (codes "/dev/snd/pcmC0D0p")
      (find_in (test_of (starts_with (codes "pcm")) sound_path) snd)
      (search_dir (starts_with (codes "pcm")) sound_path snd)

chk_ethint-Picks :
    (net : Directory)
    → Picks is_interface (take 31) net (codes "eth0") (or_text (chk_ethint 32 net) (codes "eth0"))
unfolding chk_ethint net_name
chk_ethint-Picks net =
    picks is_interface (take 31) net (codes "eth0") (find_in (test_of is_interface (take 31)) net)
      (search_dir is_interface (take 31) net)

chkdrm-search :
    (dri : Directory) → Search (starts_with (codes "card")) card_path dri (chkdrm 64 dri)
unfolding chkdrm named
chkdrm-search dri = search_dir (starts_with (codes "card")) card_path dri

with_card :
    (m : Machine) (drm : Option (List ℕ)) (net snd : List ℕ)
    → Search (starts_with (codes "card")) card_path m.dri drm
    → Picks is_interface (take 31) m.net (codes "eth0") net
    → Sound m.dsp m.snd snd
    → Starts m (args_with drm net snd)
with_card m _ net snd (Search.missing lacks) p s = Starts.falls_back lacks
with_card m _ net snd (Search.hit card chosen) p s = Starts.starts card net snd chosen p s

-- The session is started with the first card of the machine, its first interface but the loopback, or
-- eth0, and "/dev/dsp", or the first pcm device, or pcmC0D0p; names that are too long are cut off. It
-- is not started exactly where there is no card.
pub session_args-Starts : (m : Machine) → Starts m (session_args m)
unfolding session_args
session_args-Starts m =
    with_card m (chkdrm 64 m.dri) (or_text (chk_ethint 32 m.net) (codes "eth0"))
      (or_text (chk_sndev 64 m.dsp m.snd) (codes "/dev/snd/pcmC0D0p")) (chkdrm-search m.dri)
      (chk_ethint-Picks m.net) (chk_sndev-Sound m.dsp m.snd)

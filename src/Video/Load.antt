-- ===== src/Video/Load.antt =====
-- The outcomes of a load, and what is held after it.
use autumnos_mobile.Common.{
  ℕ, ◌≡◌, refl, true, false, Option, none, some, List, [], ◌∷◌, ◌==◌, arith, if◌then◌else◌, ltb, ℤ,
  pos, negsuc, ltb_ℤ, eqb_ℤ, Bool-cases, inl, inr,
}
use autumnos_mobile.Video.{
  Demux, Video, Event, opened, closed, allocated, freed, cleared, Answers, Loaded, load_vid,
  open_mp4, read_file,
}

pub data Handle : Type 0 where
  file : ℤ → Handle
  memory : ℕ → Handle

-- What is held after some events; a handle is given back when it is the last one that is held, and
-- `none` is a handle that is given back without being held.
abbrev pub holding : List Handle → List Event → Option (List Handle)
holding held [] = some held
holding held (opened f ∷ events) = holding (file f ∷ held) events
holding held (allocated b ∷ events) = holding (memory b ∷ held) events
holding [] (closed f ∷ events) = none
holding (file g ∷ held) (closed f ∷ events) = if eqb_ℤ g f then holding held events else none
holding (memory b ∷ held) (closed f ∷ events) = none
holding [] (freed b ∷ events) = none
holding (file g ∷ held) (freed b ∷ events) = none
holding (memory c ∷ held) (freed b ∷ events) = if c == b then holding held events else none

pub same_file : (f : ℤ) → eqb_ℤ f f ≡ true
same_file f = ground arith

pub same_memory : (b : ℕ) → (b == b) ≡ true
same_memory b = ground arith

-- The video after a load with success.
abbrev pub opened_video : Answers → ℕ → Demux → Video
opened_video a address mp4 = record cleared {
  fd = a.file;
  buf = some address;
  mp4 = mp4;
  tot_frm = if ltb 0 mp4.track_count then mp4.sample_count else 0;
  width = if ltb 0 mp4.track_count then mp4.track_width else 0;
  height = if ltb 0 mp4.track_count then mp4.track_height else 0;
  playing = true;
}

pub data Loads (a : Answers) (l : Loaded) : Type 0 where
  refused :
      (k : ℕ) (b : Option ℕ)
      → l.result ≡ negsuc k
      → l.video ≡ record cleared { fd = a.file; buf = b }
      → holding [] l.events ≡ some []
      → Loads a l
  succeeds :
      (address : ℕ) (mp4 : Demux)
      → ltb_ℤ a.file (pos 0) ≡ false
      → a.demux ≡ some mp4
      → l.result ≡ pos 0
      → l.video ≡ opened_video a address mp4
      → l.events ≡ opened a.file ∷ allocated address ∷ []
      → Loads a l

open_mp4-Loads :
    (f size : ℤ) (address : Option ℕ) (reads : List ℕ) (demux : Option Demux) (b tot_rd : ℕ)
    → ltb_ℤ f (pos 0) ≡ false
    → let a : Answers = record {
      file = f;
      size = size;
      address = address;
      reads = reads;
      demux = demux;
    } in
      Loads a (open_mp4 a b tot_rd)
unfolding open_mp4 cleared
open_mp4-Loads f size address reads none b tot_rd up =
    Loads.refused 3 (some b) refl refl (rw (same_memory b, same_file f) refl)
open_mp4-Loads f size address reads (some mp4) b tot_rd up =
    Loads.succeeds b mp4 up refl refl refl refl

pub load_vid-Loads : (a : Answers) → Loads a (load_vid a)
unfolding load_vid cleared
load_vid-Loads a = elim (Bool-cases (ltb_ℤ a.file (pos 0))) [
  | inl e ↦ rw e (Loads.refused 0 none refl refl refl)
  | inr e ↦ rw e (elim (Bool-cases (ltb_ℤ a.size (pos 0))) [
    | inl n ↦ rw n (Loads.refused 1 none refl refl (rw (same_file a.file) refl))
    | inr n ↦ rw n (with_address a.address e)
  ])
]
  where
    with_address :
        (address : Option ℕ)
        → ltb_ℤ a.file (pos 0) ≡ false
        → Loads a (elim address [
          | none ↦ record {
            result = negsuc 2;
            video = record cleared { fd = a.file };
            tot_rd = 0;
            events = opened a.file ∷ closed a.file ∷ [];
          }
          | some b ↦ open_mp4 a b (read_file a.size 0 a.reads)
        ])
    with_address none e = Loads.refused 2 none refl refl (rw (same_file a.file) refl)
    with_address (some b) e =
        open_mp4-Loads a.file a.size a.address a.reads a.demux b (read_file a.size 0 a.reads) e

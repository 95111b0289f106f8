-- ===== src/FtNm/Memory/Laws.antt =====
-- What a run of ft_nm leaves of the memory.
use nm.Common.{◌≡◌, refl, ◌∙◌, Bool, false, List}
use nm.Machine.{Machine, Ptr, ok}
use nm.Machine.Respects.{Frame}
use nm.FtNm.NotFat.{Symbol, handle_not_fat}
use nm.FtNm.Memory.Symbols.{handle_not_fat-Respects}

abbrev pub unchanged : Frame
unchanged = record { Keeps = λ m m'. m' ≡ m; same = λ m. refl; joins = λ l m n p q. q ∙ p }

-- An object in the byte order of the machine is only read: a run that returns leaves the memory
-- as it is.
pub handle_not_fat_unchanged :
    (is_64 : Bool) (p : Ptr) (m m' : Machine) (list : List Symbol)
    → handle_not_fat is_64 false p m ≡ ok list m'
    → m' ≡ m
handle_not_fat_unchanged is_64 p m m' list h =
    (handle_not_fat-Respects unchanged false (λ e. absurd (cc)) is_64 p).relates m m' list h

-- ===== src/Zfs/Args/Parse.antt =====
-- How `zfs create` and `zfs clone` read their arguments (zfs(8)): flags, of which `-o`, `-V` and
-- `-b` take a value, and then operands. It is the description that `Options` holds the argument
-- builders to, and models no code of the driver.
use zfs_localpv.Prelude.{
  Str, codes, ◌==◌, List, [], ◌∷◌, ◌++◌, Bool, true, false, Option, none, some, if◌then◌else◌,
}

pub record Arguments : Type 0 where
  pub options : List Str
  pub sparse : Bool
  pub volsize : Option Str
  pub blocksize : Option Str
  pub operands : List Str

abbrev pub only_operands : List Str → Arguments
only_operands names = record {
  options = [];
  sparse = false;
  volsize = none;
  blocksize = none;
  operands = names;
}

abbrev pub add_options : List Str → Arguments → Arguments
add_options values args = record args { options = values ++ args.options }

-- What the next word is: a flag or the first operand, or the value of `-o`, `-V` or `-b`.
pub data Expects : Type 0 where
  flag option_value size_value block_value : Expects

unfoldable pub read : Expects → List Str → Arguments
unfolding ◌==◌
read expects [] = only_operands []
read option_value (a ∷ rest) = add_options (a ∷ []) (read flag rest)
read size_value (a ∷ rest) = record (read flag rest) { volsize = some a }
read block_value (a ∷ rest) = record (read flag rest) { blocksize = some a }
read flag (a ∷ rest) =
    let option = read option_value rest in
    let size = read size_value rest in
    let block = read block_value rest in
    let others = read flag rest in
    if a == codes "-o"
    then option
    else if a == codes "-V"
    then size
    else if a == codes "-b"
    then block
    else if a == codes "-s"
    then record others { sparse = true }
    else only_operands (a ∷ rest)

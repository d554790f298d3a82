-- ===== src/Nbt/TagType.antt =====
-- `enum NBTTagType` of data/nbt.h, as numbers: the code stores other numbers in it too.
use mcsrv.Common.{ℕ}

abbrev pub end : ℕ
end = 0

abbrev pub byte : ℕ
byte = 1

abbrev pub short : ℕ
short = 2

abbrev pub int : ℕ
int = 3

abbrev pub long : ℕ
long = 4

abbrev pub float : ℕ
float = 5

abbrev pub double : ℕ
double = 6

abbrev pub byte_array : ℕ
byte_array = 7

abbrev pub string : ℕ
string = 8

abbrev pub list : ℕ
list = 9

abbrev pub compound : ℕ
compound = 10

abbrev pub int_array : ℕ
int_array = 11

abbrev pub long_array : ℕ
long_array = 12

abbrev pub count : ℕ
count = 13

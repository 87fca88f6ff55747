-- ===== src/RvCsr/Misa.antt =====
-- The fields of `misa_t` in include/rafi/common/RvCsr.h.
use rafi_emu.BitField.{Member, bit, bits}

abbrev pub a : Member
a = bit 0

abbrev pub b : Member
b = bit 1

abbrev pub c : Member
c = bit 2

abbrev pub d : Member
d = bit 3

abbrev pub e : Member
e = bit 4

abbrev pub f : Member
f = bit 5

abbrev pub g : Member
g = bit 6

abbrev pub h : Member
h = bit 7

abbrev pub i : Member
i = bit 8

abbrev pub j : Member
j = bit 9

abbrev pub k : Member
k = bit 10

abbrev pub l : Member
l = bit 11

abbrev pub m : Member
m = bit 12

abbrev pub n : Member
n = bit 13

abbrev pub o : Member
o = bit 14

abbrev pub p : Member
p = bit 15

abbrev pub q : Member
q = bit 16

abbrev pub r : Member
r = bit 17

abbrev pub s : Member
s = bit 18

abbrev pub t : Member
t = bit 19

abbrev pub u : Member
u = bit 20

abbrev pub v : Member
v = bit 21

abbrev pub w : Member
w = bit 22

abbrev pub x : Member
x = bit 23

abbrev pub y : Member
y = bit 24

abbrev pub z : Member
z = bit 25

abbrev pub mxl_rv32 : Member
mxl_rv32 = bits 31 30

abbrev pub mxl_rv64 : Member
mxl_rv64 = bits 63 62

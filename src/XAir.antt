-- ===== src/XAir.antt =====
-- The x_air state receiver of src/vlai_l1_runtime/teleoperation/xair.py: packets, the two assemblers
-- of left and right or of one side, and the choice of the pair closest to a time.
mod Packet
mod Assembler
mod Receiver
mod Laws
mod Paired
mod Order
mod Closest
mod Tests
